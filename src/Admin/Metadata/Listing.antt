-- ===== src/Admin/Metadata/Listing.antt =====
-- The list of the jobs that /metadata of master/admin_routes.py shows.
use mathlib.Core.List.{Perm}
use Prim.Native.String.{String}
use dip.Prelude.{
  ℕ, zero, suc, ◌/◌, ◌<◌, ◌≢◌, ◌==◌, minus, ◌≡◌, ◌∙◌, ap, refl, List, [], ◌∷◌, ◌++◌, Option, none,
  some, Bool, true, false, not, ◌&&◌, length, max, arith, inl, inr, ◌⊎◌, Bool-cases, Text, codes,
  text_eq, text_eq_refl, contains, take, is_among, without, distinct, Result, ok, raise, Error,
}
use dip.Jobstore.{Job}
use dip.Admin.{Database, classify_keys, get_job, job_key, is_job_key, job_ids_from_keys}
use dip.Admin.Classes.{is_among-distinct, is_among-without, is_among-keep_if, is_among-job_ids}
use dip.Admin.Metadata.Sorting.{
  NewestFirst, sort_jobs-NewestFirst, sort_jobs-perm, length-sort_jobs,
}
use dip.Admin.Metadata.Grid.{IsGrid, grid_columns-IsGrid}
use dip.Admin.Metadata.{
  JobInfo, job_info, grid_rows, grid_columns, number_or, elapsed, is_some, collect_jobs,
  get_metadata, Metadata,
}

-- No text comes twice.
abbrev pub IsDistinct : List Text → Type 0
IsDistinct [] = Unit {0}
IsDistinct (t ∷ ts) = (is_among t ts ≡ false) × IsDistinct ts

without-IsDistinct : (t : Text) (ts : List Text) → IsDistinct ts → IsDistinct (without t ts)
without-IsDistinct t [] h = tt
without-IsDistinct t (u ∷ us) h = elim (Bool-cases (text_eq t u)) [
  | inl e ↦ rw e (without-IsDistinct t us h.1)
  | inr e ↦ rw e (ground (arith, is_among-without u t us, h.0), without-IsDistinct t us h.1)
]

distinct-IsDistinct : (ts : List Text) → IsDistinct (distinct ts)
distinct-IsDistinct [] = tt
distinct-IsDistinct (t ∷ ts) = (
  ground (arith, is_among-without t t (distinct ts), text_eq_refl t),
  without-IsDistinct t (distinct ts) (distinct-IsDistinct ts),
)

-- A key of the scan is "job:" and the id, which has no colon.
abbrev pub is_shown : Text → List Text → Bool
is_shown jid all_keys = is_among (codes "job:" ++ jid) all_keys && not (contains b':' jid)

-- The ids are those of the job keys of the scan, each once.
pub record AreIds (all_keys ids : List Text) : Type 0 where
  pub shown : (jid : Text) → is_among jid ids ≡ is_shown jid all_keys
  pub distinct_ids : IsDistinct ids

job_ids-AreIds : (all_keys : List Text) → AreIds all_keys (classify_keys all_keys).job_ids
unfolding classify_keys
job_ids-AreIds all_keys = record {
  shown = λ jid.
      is_among-distinct jid (job_ids_from_keys all_keys)
      ∙ is_among-job_ids (job_key jid) refl all_keys
      ∙ is_among-keep_if is_job_key (job_key jid) all_keys;
  distinct_ids = distinct-IsDistinct (job_ids_from_keys all_keys);
}

module _ (percent : ℕ → ℕ → ℕ) (now : ℕ) where
  -- What is shown of a job, field by field.
  pub record IsInfo (jid : Text) (found : Job) (info : JobInfo) : Type 0 where
    pub short : info.job_id ≡ take 8 jid
    pub full : info.full_job_id ≡ jid
    pub kind : (info.operation ≡ found.operation) × (info.status ≡ found.status)
    pub named : info.original_filename ≡ found.original_filename
    pub counts :
        (info.total_tiles ≡ found.expected_tiles)
        × (info.tiles_received ≡ found.results_count)
        × (info.failed_tasks ≡ found.failed_tasks)
        × (info.active_workers ≡ found.active_workers)
    pub grid : (found.expected_tiles ≡ 0) ⊎ IsGrid found.expected_tiles info.rows info.cols
    pub created : ℕ
    pub since :
        ((found.timestamp ≡ 0) × (created ≡ now))
        ⊎ ((0 < found.timestamp) × (created ≡ found.timestamp))
    pub shown_since : info.created_at ≡ created / 1000
    pub took :
        ((t : ℕ) × (found.completion_time ≡ some t)
          × (0 < t)
          × (t ≢ created)
          × (info.processing_time ≡ some (minus t created)))
        ⊎ (((found.completion_time ≡ none)
              ⊎ ((found.completion_time ≡ some 0) ⊎ (found.completion_time ≡ some created)))
            × (info.processing_time ≡ none))
    pub size : info.image_size ≡ (found.original_width, found.original_height)
    pub completed : info.completion_time ≡ found.completion_time
    pub result :
        ((found.result_path ≡ none) × (info.result_available ≡ false))
        ⊎ (((path : String) × (found.result_path ≡ some path)) × (info.result_available ≡ true))
    pub progressed :
        ((found.expected_tiles ≡ 0) × (info.progress ≡ percent found.results_count 1))
        ⊎ ((0 < found.expected_tiles)
            × (info.progress ≡ percent found.results_count found.expected_tiles))

  job_info-IsInfo : (jid : Text) (found : Job) → IsInfo jid found (job_info percent now jid found)
  unfolding job_info
  job_info-IsInfo jid found = record {
    short = refl;
    full = refl;
    kind = (refl, refl);
    named = refl;
    counts = (refl, refl, refl, refl);
    grid = grid found.expected_tiles;
    created = number_or found.timestamp now;
    since = since found.timestamp;
    shown_since = refl;
    took = took found.completion_time (number_or found.timestamp now);
    size = refl;
    completed = refl;
    result = result found.result_path;
    progressed = progressed found.expected_tiles;
  }
    where
      grid : (n : ℕ) → (n ≡ 0) ⊎ IsGrid n (grid_rows n) (grid_columns n)
      grid zero = inl refl
      grid (suc n) = inr (grid_columns-IsGrid (suc n) (omega arith)).0

      since : (t : ℕ) → ((t ≡ 0) × (number_or t now ≡ now)) ⊎ ((0 < t) × (number_or t now ≡ t))
      since zero = inl (refl, refl)
      since (suc t) = inr (omega arith, refl)

      took :
          (o : Option ℕ) (c : ℕ)
          → ((t : ℕ) × (o ≡ some t) × (0 < t) × (t ≢ c) × (elapsed o c ≡ some (minus t c)))
            ⊎ (((o ≡ none) ⊎ ((o ≡ some 0) ⊎ (o ≡ some c))) × (elapsed o c ≡ none))
      took none c = inr (inl refl, refl)
      took (some t) c = elim (Bool-cases (t == 0)) [
        | inl zero_time ↦
            let e : t ≡ 0 = ground (arith, zero_time) in
            inr (inr (inl (ap (λ n. some n) e)), rw zero_time refl)
        | inr some_time ↦ elim (Bool-cases (t == c)) [
          | inl same ↦
              let e : t ≡ c = ground (arith, same) in
              inr (inr (inr (ap (λ n. some n) e)), rw (some_time, same) refl)
          | inr other ↦ inl (
            t,
            refl,
            ground (arith, some_time),
            ground (arith, other),
            rw (some_time, other) refl,
          )
        ]
      ]

      result :
          (o : Option String)
          → ((o ≡ none) × (is_some o ≡ false))
            ⊎ (((path : String) × (o ≡ some path)) × (is_some o ≡ true))
      result none = inl (refl, refl)
      result (some path) = inr ((path, refl), refl)

      progressed :
          (n : ℕ)
          → ((n ≡ 0) × (percent found.results_count (max n 1) ≡ percent found.results_count 1))
            ⊎ ((0 < n) × (percent found.results_count (max n 1) ≡ percent found.results_count n))
      progressed zero = inl (refl, refl)
      progressed (suc n) =
          let same : max (suc n) 1 ≡ suc n = omega arith in
          inr (omega arith, ap (percent found.results_count) same)

  module _ (D : Database) (d : ℕ) (s : D.State) where
    -- The job cannot be read: its hash is gone, or a field of it does not parse.
    abbrev pub IsUnreadable : Text → Type 0
    IsUnreadable jid = (get_job D d jid s ≡ ok none) ⊎ ((e : Error) × (get_job D d jid s ≡ raise e))

    -- One item for each of the ids whose job can be read, in their order, and none for the others.
    abbrev pub AreListed : List Text → List JobInfo → Type 0
    AreListed [] infos = infos ≡ []
    AreListed (jid ∷ jids) infos =
        ((found : Job) × (info : JobInfo) × (rest : List JobInfo) × (get_job D d jid s
            ≡ ok (some found))
          × (infos ≡ info ∷ rest)
          × IsInfo jid found info
          × AreListed jids rest)
        ⊎ (IsUnreadable jid × AreListed jids infos)

    collect_jobs-AreListed :
        (jids : List Text) → AreListed jids (collect_jobs D percent d now jids s)
    unfolding collect_jobs
    collect_jobs-AreListed [] = refl
    collect_jobs-AreListed (jid ∷ jids) = go (get_job D d jid s) refl (collect_jobs-AreListed jids)
      where
        go :
            (r : Result (Option Job))
            → get_job D d jid s ≡ r
            → AreListed jids (collect_jobs D percent d now jids s)
            → AreListed (jid ∷ jids) (collect_jobs D percent d now (jid ∷ jids) s)
        go (raise e) x h = rw (x, collect_jobs) (inr (inr (e, refl), h))
        go (ok none) x h = rw (x, collect_jobs) (inr (inl refl, h))
        go (ok (some found)) x h =
            rw (x, collect_jobs) (inl (found, _, _, refl, refl, job_info-IsInfo jid found, h))

    -- The list of the jobs: with the newest first, it has an item for each readable job of the ids.
    pub record IsListing (m : Metadata) : Type 0 where
      pub ids : List Text
      pub of_scan : AreIds (D.scan s) ids
      pub infos : List JobInfo
      pub listed : AreListed ids infos
      pub complete : Perm m.jobs infos
      pub newest_first : NewestFirst m.jobs
      pub counted : m.total_jobs ≡ length m.jobs

    -- /metadata lists one item for each job key that the scan shows and whose job can be read, with
    -- that job's own fields and a grid that has room for its tiles, the newest first; it lists no
    -- other, and counts them.
    pub get_metadata-IsListing :
        (workers : List Text) → IsListing (get_metadata D percent d now workers s)
    unfolding get_metadata
    get_metadata-IsListing workers =
        let jids = (classify_keys (D.scan s)).job_ids in
        let jobs = collect_jobs D percent d now jids s in
        record {
          ids = jids;
          of_scan = job_ids-AreIds (D.scan s);
          infos = jobs;
          listed = collect_jobs-AreListed jids;
          complete = sort_jobs-perm jobs;
          newest_first = sort_jobs-NewestFirst jobs;
          counted = length-sort_jobs jobs;
        }
