-- ===== src/Reaper/Cases.antt =====
-- The three ends of the loop body of master/reaper.py, and what a republished task is.
use dip.Prelude.{
  ℕ, ◌+◌, ◌≤◌, ◌≡◌, refl, List, [], ◌∷◌, Option, none, some, true, ltb, Result, ok, raise, arith,
  inl, inr, Bool-cases, ◌>>=◌, Error,
}
use dip.Imaging.{Geometry}
use dip.Redis.{Redis, Operation}
use dip.Tasks.{Topic, Task}
use dip.Jobstore.{incr_tile_attempts, add_abandoned_tile}
use dip.Reaper.{
  Config, Outside, find_geometry, requeue_task, republish_tile, topic_of, Sweep, after_republish,
  reap_tile,
}

pub find_geometry_id :
    (t : ℕ) (gs : List Geometry) (g : Geometry) → find_geometry t gs ≡ some g → g.tile_id ≡ t
find_geometry_id t [] g e = cc
find_geometry_id t (h ∷ gs) g e = ground (arith, find_geometry_id t gs g)

pub republish_tile_lem :
    (out : Outside) (j : ℕ) (o : Operation) (g : Geometry) (attempt : ℕ) (k : Task)
    → republish_tile out j o g attempt ≡ ok (some k)
    → (k ≡ requeue_task j o g attempt)
      × (out.tile_exists (requeue_task j o g attempt).blob_key ≡ true)
unfolding republish_tile
republish_tile_lem out j o g attempt k e =
    elim (Bool-cases (out.tile_exists (requeue_task j o g attempt).blob_key)) [
      | inl there ↦
          (go (out.produce (topic_of o) (requeue_task j o g attempt)) (rw there at e), there)
      | inr gone ↦ absurd (ground (arith, gone, e))
    ]
  where
    go :
        (r : Result (Unit {0}))
        → (r >>= λ _. ok (some (requeue_task j o g attempt))) ≡ ok (some k)
        → k ≡ requeue_task j o g attempt
    go (ok x) h = cc
    go (raise x) h = cc

pub republish_tile-raise :
    (out : Outside) (j : ℕ) (o : Operation) (g : Geometry) (attempt : ℕ) (x : Error)
    → republish_tile out j o g attempt ≡ raise x
    → out.produce (topic_of o) (requeue_task j o g attempt) ≡ raise x
unfolding republish_tile
republish_tile-raise out j o g attempt x e =
    elim (Bool-cases (out.tile_exists (requeue_task j o g attempt).blob_key)) [
      | inl there ↦ go (out.produce (topic_of o) (requeue_task j o g attempt)) (rw there at e)
      | inr gone ↦ absurd (ground (arith, gone, e))
    ]
  where
    go :
        (r : Result (Unit {0}))
        → (r >>= λ _. ok (some (requeue_task j o g attempt))) ≡ raise x
        → r ≡ raise x
    go (ok y) h = cc
    go (raise y) h = cc

module _ (R : Redis) where
  open R use {Server}

  module _ (c : Config) (out : Outside) (j : ℕ) (o : Operation) (gs : List Geometry) where
    -- The loop body counts an attempt, and then gives the tile up, or raises what the producer
    -- raises, or sends the task of the tile under an attempt within the cap.
    pub reap_tile_ends {ℓ} :
        (P : Sweep R × Result (Unit {0}) → Type ℓ) (t : ℕ) (w : Sweep R)
        → let (s', n) = incr_tile_attempts R j t w.server in
          P (record w { server = add_abandoned_tile R j t s' }, ok tt)
          → ((topic : Topic) (k : Task) (x : Error)
              → out.produce topic k ≡ raise x
              → P (record w { server = s' }, raise x))
          → ((g : Geometry)
              → g.tile_id ≡ t
              → n + 1 ≤ c.max_tile_attempts
              → out.tile_exists (requeue_task j o g (n + 1)).blob_key ≡ true
              → P (
                record w {
                  server = s';
                  sent = requeue_task j o g (n + 1) ∷ w.sent;
                  requeued = w.requeued + 1;
                },
                ok tt,
              ))
          → P (reap_tile R c out j o gs t w)
    unfolding reap_tile
    reap_tile_ends P t w given_up failed sent =
        elim (Bool-cases (ltb c.max_tile_attempts (n + 1))) [
          | inl over ↦ rw over given_up
          | inr under ↦ rw under (go (find_geometry t gs) refl (ground (arith, under)))
        ]
      where
        n : ℕ
        n = (incr_tile_attempts R j t w.server).1

        w' : Sweep R
        w' = record w { server = (incr_tile_attempts R j t w.server).0 }

        republished :
            (g : Geometry)
            → g.tile_id ≡ t
            → n + 1 ≤ c.max_tile_attempts
            → (r : Result (Option Task)) → republish_tile out j o g (n + 1) ≡ r
            → P (after_republish R j t w' r)
        republished g e le (raise x) r = failed _ _ x (republish_tile-raise out j o g (n + 1) x r)
        republished g e le (ok none) r = given_up
        republished g e le (ok (some k)) r =
            let (e', there) = republish_tile_lem out j o g (n + 1) k r in rw e' (sent g e le there)

        go :
            (found : Option Geometry)
            → find_geometry t gs ≡ found
            → n + 1 ≤ c.max_tile_attempts
            → P (elim found as (λ x. Sweep R × Result (Unit {0})) [
              | none ↦ (record w' { server = add_abandoned_tile R j t w'.server }, ok tt)
              | some g ↦ after_republish R j t w' (republish_tile out j o g (n + 1))
            ])
        go none e le = given_up
        go (some g) e le = republished g (find_geometry_id t gs g e) le _ refl

    -- The same of the sweep alone.
    pub reap_tile_cases {ℓ} :
        (P : Sweep R → Type ℓ) (t : ℕ) (w : Sweep R)
        → let (s', n) = incr_tile_attempts R j t w.server in
          P (record w { server = add_abandoned_tile R j t s' })
          → P (record w { server = s' })
          → ((g : Geometry)
              → g.tile_id ≡ t
              → n + 1 ≤ c.max_tile_attempts
              → out.tile_exists (requeue_task j o g (n + 1)).blob_key ≡ true
              → P (record w {
                server = s';
                sent = requeue_task j o g (n + 1) ∷ w.sent;
                requeued = w.requeued + 1;
              }))
          → P (reap_tile R c out j o gs t w).0
    reap_tile_cases P t w given_up failed sent =
        reap_tile_ends (λ p. P p.0) t w given_up (λ topic k x e. failed) sent
