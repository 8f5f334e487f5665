-- ===== src/Inference/Batch.antt =====
-- What `_process_batch` of inference/main.py publishes and commits.
use Prim.Native.String.{String}
use dip.Prelude.{
  ℕ, ◌≡◌, refl, subst, List, [], ◌∷◌, ◌++◌, Option, none, some, ◌>>=◌, ltb, Result, ok, raise, map,
  arith, inl, inr, ◌⊎◌, Bool-cases,
}
use dip.Redis.{Detection}
use dip.Tasks.{Task}
use dip.Results.{ResultMessage}
use dip.Inference.Crops.{label_results}
use dip.Inference.{
  Item, Service, Outside, fetched, valid_images, spread, ml_result, produce_result, publish_results,
  tasks_of, messages_of, infer, detect_valid, process_batch, Crop, crops_of, classify_crops,
}

-- The job and the tile of each result, and of each task.
abbrev pub named : List ResultMessage → List (Option ℕ × Option ℕ)
named [] = []
named (m ∷ ms) = (m.job_id, m.tile_id) ∷ named ms

module _ (Image : Type 0) (out : Outside Image) (worker_id : String) where
  -- The tasks whose image can be fetched, put before what is there, the newest first.
  abbrev pub named_fetched : List Task → List (Option ℕ × Option ℕ) → List (Option ℕ × Option ℕ)
  named_fetched [] seen = seen
  named_fetched (task ∷ tasks) seen = elim (out.fetch task.blob_key) [
    | ok image ↦ named_fetched tasks ((some task.job_id, some task.tile_id) ∷ seen)
    | raise e ↦ named_fetched tasks seen
  ]

  -- A loop that ends without an exception has published what was fetched.
  abbrev Names : List Task → List ResultMessage → List ResultMessage × Result (Unit {0}) → Type 0
  Names tasks published p = p.1 ≡ ok tt → named p.0 ≡ named_fetched tasks (named published)

  -- What is to be published has its gaps where the images have theirs.
  abbrev SameGaps : List (Option Image) → List (Option (List Detection)) → Type 0
  SameGaps [] [] = Unit {0}
  SameGaps (none ∷ images) (none ∷ found) = SameGaps images found
  SameGaps (some image ∷ images) (some dets ∷ found) = SameGaps images found
  SameGaps images found = ⊥

  spread-SameGaps :
      (images : List (Option Image)) (ds : List (List Detection))
      → SameGaps images (spread Image images ds)
  spread-SameGaps [] ds = tt
  spread-SameGaps (none ∷ images) ds = spread-SameGaps images ds
  spread-SameGaps (some image ∷ images) [] = spread-SameGaps images []
  spread-SameGaps (some image ∷ images) (d ∷ ds) = spread-SameGaps images ds

  label_results-SameGaps :
      (images : List (Option Image)) (found : List (Option (List Detection)))
      (labels : List (String × ℕ))
      → SameGaps images found
      → SameGaps images (label_results found labels)
  label_results-SameGaps [] [] labels h = h
  label_results-SameGaps [] (r ∷ found) labels h = absurd h
  label_results-SameGaps (none ∷ images) [] labels h = absurd h
  label_results-SameGaps (some image ∷ images) [] labels h = absurd h
  label_results-SameGaps (none ∷ images) (none ∷ found) labels h =
      label_results-SameGaps images found labels h
  label_results-SameGaps (none ∷ images) (some dets ∷ found) labels h = absurd h
  label_results-SameGaps (some image ∷ images) (none ∷ found) labels h = absurd h
  label_results-SameGaps (some image ∷ images) (some dets ∷ found) labels h =
      label_results-SameGaps images found _ h

  publish_results-Names :
      (tasks : List Task) (found : List (Option (List Detection))) (published : List ResultMessage)
      → SameGaps (map (fetched Image out) tasks) found
      → Names tasks published (publish_results Image out worker_id tasks found published)
  unfolding publish_results
  publish_results-Names [] found published h = λ e. refl
  publish_results-Names (task ∷ tasks) found published h =
      go (out.fetch task.blob_key) found refl h (publish_results-Names tasks)
    where
      go :
          (r : Result Image) (found : List (Option (List Detection)))
          → out.fetch task.blob_key ≡ r
          → SameGaps
              ((elim r as (λ x. Option Image) [ ok image ↦ some image | raise e ↦ none ])
                ∷ map (fetched Image out) tasks)
              found
          → ((found : List (Option (List Detection))) (published : List ResultMessage)
              → SameGaps (map (fetched Image out) tasks) found
              → Names tasks published (publish_results Image out worker_id tasks found published))
          → Names
              (task ∷ tasks)
              published
              (publish_results Image out worker_id (task ∷ tasks) found published)
      go (raise x) [] f h rest = absurd h
      go (raise x) (some dets ∷ found) f h rest = absurd h
      go (raise x) (none ∷ found) f h rest = rw (f, named_fetched) (rest found published h)
      go (ok image) [] f h rest = absurd h
      go (ok image) (none ∷ found) f h rest = absurd h
      go (ok image) (some dets ∷ found) f h rest =
          one (produce_result Image out (ml_result Image out worker_id task dets)) refl
            (rest found _ h)
        where
          one :
              (r : Result (Unit {0}))
              → produce_result Image out (ml_result Image out worker_id task dets) ≡ r
              → Names tasks (ml_result Image out worker_id task dets ∷ published) (
                  publish_results Image out worker_id tasks found
                    (ml_result Image out worker_id task dets ∷ published))
              → Names
                  (task ∷ tasks)
                  published
                  (publish_results Image out worker_id (task ∷ tasks) (some dets ∷ found) published)
          one (ok _) g named_rest = rw (publish_results, g, named_fetched, f) named_rest
          one (raise x) g named_rest = rw (publish_results, g) (λ k. absurd cc)

  classify_crops-SameGaps :
      (images : List (Option Image)) (crops : List (Crop Image))
      (results found : List (Option (List Detection)))
      → classify_crops Image out crops results ≡ ok found
      → SameGaps images results
      → SameGaps images found
  unfolding classify_crops
  classify_crops-SameGaps images [] results found e h =
      let same : results ≡ found = cc in subst (SameGaps images) same h
  classify_crops-SameGaps images (c ∷ crops) results found e h = go (out.classify (c ∷ crops)) e
    where
      go :
          (r : Result (List (String × ℕ)))
          → (r >>= λ labels. ok (label_results results labels)) ≡ ok found
          → SameGaps images found
      go (raise x) e' = absurd cc
      go (ok labels) e' =
          let same : label_results results labels ≡ found = cc in
          subst (SameGaps images) same (label_results-SameGaps images results labels h)

  infer-SameGaps :
      (tasks : List Task) (found : List (Option (List Detection)))
      → infer Image out tasks ≡ ok found
      → SameGaps (map (fetched Image out) tasks) found
  unfolding infer
  infer-SameGaps tasks found e =
      go (detect_valid Image out (valid_images Image (map (fetched Image out) tasks))) e
    where
      images : List (Option Image)
      images = map (fetched Image out) tasks

      go :
          (r : Result (List (List Detection)))
          → (r >>= λ ds.
              classify_crops Image out
                (crops_of Image out images (spread Image images ds))
                (spread Image images ds))
            ≡ ok found
          → SameGaps images found
      go (raise x) e' = absurd cc
      go (ok ds) e' =
          classify_crops-SameGaps images _ (spread Image images ds) found e'
            (spread-SameGaps images ds)

  -- What is said of the service after a batch.
  abbrev pub CommitsAll : List Item → Service → Service → Type 0
  CommitsAll items s s' =
      (s'.to_commit ≡ s.to_commit)
      ⊎ ((s'.to_commit ≡ s.to_commit ++ messages_of Image items)
          × (out.still_queued ≡ 0)
          × (named s'.published ≡ named_fetched (tasks_of Image items) (named s.published)))

  -- Either a batch leaves the queue of commits as it was, or it adds its own messages, all of them
  -- and in their order; the latter only if the flush left nothing queued and exactly one result was
  -- published for each task of the batch whose image could be fetched, and none for the others.
  pub process_batch-commits :
      (items : List Item) (s : Service)
      → CommitsAll items s (process_batch Image out worker_id items s)
  unfolding process_batch
  process_batch-commits items s = go (infer Image out (tasks_of Image items)) refl
    where
      go :
          (r : Result (List (Option (List Detection))))
          → infer Image out (tasks_of Image items) ≡ r
          → CommitsAll items s (process_batch Image out worker_id items s)
      go (raise x) f = rw (f, process_batch) (inl refl)
      go (ok found) f =
          one (publish_results Image out worker_id (tasks_of Image items) found s.published).1 refl
        where
          one :
              (r : Result (Unit {0}))
              → (publish_results Image out worker_id (tasks_of Image items) found s.published).1 ≡ r
              → CommitsAll items s (process_batch Image out worker_id items s)
          one (raise x) g = rw (f, process_batch, g) (inl refl)
          one (ok _) g = elim (Bool-cases (ltb 0 out.still_queued)) [
            | inl stuck ↦ rw (f, process_batch, g, stuck) (inl refl)
            | inr flushed ↦
                let names =
                  publish_results-Names (tasks_of Image items) found s.published
                    (infer-SameGaps (tasks_of Image items) found f) in
                rw (f, process_batch, g, flushed) (inr (refl, ground (arith, flushed), names g))
          ]
