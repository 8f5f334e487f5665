-- ===== src/Reaper/Invariant.antt =====
-- The invariant rule of the sweep of master/reaper.py: what its atomic steps keep, it keeps.
use dip.Prelude.{
  ℕ, ◌≡◌, refl, max, ◌+◌, List, [], ◌∷◌, Option, none, some, Bool, true, false, ltb, Result, ok,
  raise, inl, inr, Bool-cases, All,
}
use dip.Imaging.{Geometry, tile_geometries}
use dip.Redis.{Redis, Operation}
use dip.Results.{is_processing}
use dip.Jobstore.{Job, get_job, get_last_reap_time, set_last_reap_time}
use dip.Reaper.{
  Config, Outside, Sweep, degrade, reap_tile, reap_tiles, requeue_job, reap_missing, reap_job_data,
  reap_job, reap_once,
}

pub All-trivial : (ts : List ℕ) → All (λ _. Unit {0}) ts
All-trivial [] = tt
All-trivial (t ∷ ts) = (tt, All-trivial ts)

module _ (R : Redis) (c : Config) (out : Outside) (now : ℕ) where
  open R use {Server}

  -- What a predicate on sweeps must survive in the requeue of job `j`: a tile, and the note of the
  -- time. The tiles of the requeue satisfy `Q`.
  pub record IsKeptByRequeue {ℓ κ} (j : ℕ) (P : Sweep R → Type ℓ) (Q : ℕ → Type κ)
      : Type (ℓ ⊔ κ) where
    pub tile :
        (o : Operation) (gs : List Geometry) (t : ℕ) (w : Sweep R)
        → Q t
        → P w
        → P (reap_tile R c out j o gs t w).0
    pub noted : (w : Sweep R) → P w → P (record w { server = set_last_reap_time R j now w.server })

  -- And in a sweep: the end of a job too.
  pub record IsKept {ℓ} (P : Sweep R → Type ℓ) : Type ℓ where
    pub requeue : (j : ℕ) → IsKeptByRequeue j P (λ _. Unit {0})
    pub given_up : (j : ℕ) (w : Sweep R) → P w → P (degrade R j w)

  module _ {ℓ κ} (j : ℕ) (P : Sweep R → Type ℓ) (Q : ℕ → Type κ)
      (kept : IsKeptByRequeue j P Q) where
    pub reap_tiles-inv :
        (o : Operation) (gs : List Geometry) (ts : List ℕ) (w : Sweep R)
        → All Q ts
        → P w
        → P (reap_tiles R c out j o gs ts w).0
    unfolding reap_tiles
    reap_tiles-inv o gs [] w q p = p
    reap_tiles-inv o gs (t ∷ ts) w q p =
        go (reap_tile R c out j o gs t w).1 refl
          (reap_tiles-inv o gs ts _ q.1 (kept.tile o gs t w q.0 p))
      where
        go :
            (r : Result (Unit {0}))
            → (reap_tile R c out j o gs t w).1 ≡ r
            → P (reap_tiles R c out j o gs ts (reap_tile R c out j o gs t w).0).0
            → P (reap_tiles R c out j o gs (t ∷ ts) w).0
        go (ok x) e rest = rw (e, reap_tiles) rest
        go (raise x) e rest = rw (e, reap_tiles) (kept.tile o gs t w q.0 p)

    pub requeue_job-inv :
        (found : Job) (ts : List ℕ) (w : Sweep R)
        → All Q ts
        → P w
        → P (requeue_job R c out now j found ts w)
    unfolding requeue_job
    requeue_job-inv found ts w q p =
        outer (tile_geometries found.original_width found.original_height found.tile_size) refl
      where
        inner :
            (gs : List Geometry) (r : Result (Unit {0}))
            → P (elim r as (λ x. Sweep R) [
              | raise e ↦ (reap_tiles R c out j found.operation gs ts w).0
              | ok _ ↦
                  let w' = (reap_tiles R c out j found.operation gs ts w).0 in
                  record w' { server = set_last_reap_time R j now w'.server }
            ])
        inner gs (raise e) = reap_tiles-inv found.operation gs ts w q p
        inner gs (ok x) = kept.noted _ (reap_tiles-inv found.operation gs ts w q p)

        outer :
            (r : Result (List Geometry))
            → tile_geometries found.original_width found.original_height found.tile_size ≡ r
            → P (requeue_job R c out now j found ts w)
        outer (raise x) e = rw (e, requeue_job) p
        outer (ok gs) e =
            rw (e, requeue_job) (inner gs (reap_tiles R c out j found.operation gs ts w).1)

  module _ {ℓ} (P : Sweep R → Type ℓ) (kept : IsKept P) where
    pub reap_missing-inv :
        (j : ℕ) (found : Job) (missing retryable : List ℕ) (w : Sweep R)
        → P w
        → P (reap_missing R c out now j found missing retryable w)
    unfolding reap_missing
    reap_missing-inv j found [] retryable w p = p
    reap_missing-inv j found (m ∷ ms) [] w p = kept.given_up j w p
    reap_missing-inv j found (m ∷ ms) (t ∷ ts) w p =
        requeue_job-inv j P (λ _. Unit {0}) (kept.requeue j) found (t ∷ ts) w (All-trivial (t ∷ ts))
          p

    pub reap_job_data-inv :
        (j : ℕ) (found : Job) (w : Sweep R) → P w → P (reap_job_data R c out now j found w)
    unfolding reap_job_data
    reap_job_data-inv j found w p = go (get_last_reap_time R j w.server) refl
      where
        go :
            (r : Result ℕ)
            → get_last_reap_time R j w.server ≡ r
            → P (reap_job_data R c out now j found w)
        go (raise x) e = rw (e, reap_job_data) p
        go (ok last_reap) e =
            elim (Bool-cases (ltb now (max found.timestamp last_reap + c.outstanding_timeout))) [
              | inl early ↦ rw (e, reap_job_data, early) p
              | inr late ↦ rw (e, reap_job_data, late) (reap_missing-inv j found _ _ w p)
            ]

    pub reap_job-inv : (j : ℕ) (w : Sweep R) → P w → P (reap_job R c out now j w)
    unfolding reap_job
    reap_job-inv j w p = go (get_job R c.default_tile_size j w.server) refl
      where
        go :
            (r : Result (Option Job))
            → get_job R c.default_tile_size j w.server ≡ r
            → P (reap_job R c out now j w)
        go (raise x) e = rw (e, reap_job) p
        go (ok none) e = rw (e, reap_job) p
        go (ok (some found)) e = elim (Bool-cases (is_processing found.status)) [
          | inl waiting ↦ rw (e, reap_job, waiting) (reap_job_data-inv j found w p)
          | inr closed ↦ rw (e, reap_job, closed) p
        ]

    pub reap_once-inv :
        (jobs : List (Bool × ℕ)) (w : Sweep R) → P w → P (reap_once R c out now jobs w)
    unfolding reap_once
    reap_once-inv [] w p = p
    reap_once-inv ((false, j) ∷ jobs) w p = p
    reap_once-inv ((true, j) ∷ jobs) w p = reap_once-inv jobs _ (reap_job-inv j w p)
