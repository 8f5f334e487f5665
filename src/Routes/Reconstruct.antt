-- ===== src/Routes/Reconstruct.antt =====
-- The course of /reconstruct in master/app.py.
use dip.Prelude.{
  ℕ, ◌≤◌, ◌<◌, ◌≡◌, refl, ap, true, false, ltb, Result, ok, raise, arith, inl, inr, ◌⊎◌, Bool-cases,
}
use dip.Redis.{Redis, job, tiles, Status, missing}
use dip.Jobstore.{Job, count_tile_results, mark_job_completed, delete_job_tile_state}
use dip.Jobstore.View.{HoldsJob, HoldsJob-same, get_job-HoldsJob, read_job}
use dip.Jobstore.Finish.{
  mark_job_completed-HoldsJob, job-delete_job_tile_state, tiles-delete_job_tile_state,
}
use dip.Routes.{Response, refused, Outside, draw, complete_job, reconstruct_job}

module _ (R : Redis) (Bytes : Type 0) where
  open R use {Server, entry}

  -- The job is completed, none of its tiles is left, and it cannot be reconstructed again.
  pub record IsFinished (d j n : ℕ) (s : Server) : Type 0 where
    pub completed : HoldsJob R d j n Status.completed s
    pub swept : entry (tiles j) s ≡ missing
    pub final : (out : Outside R Bytes) → reconstruct_job R Bytes out d j s ≡ (s, refused 400)

  reconstruct_job-early :
      (out : Outside R Bytes) (d j n : ℕ) (st : Status) (s : Server)
      → HoldsJob R d j n st s
      → (entry (tiles j) s).size < n
      → reconstruct_job R Bytes out d j s ≡ (s, refused 400)
  unfolding reconstruct_job
  reconstruct_job-early out d j n st s v few =
      let e : ltb (count_tile_results R j s) n ≡ true = ground (arith, few) in
      rw (get_job-HoldsJob R d j n st s v, reconstruct_job, e) refl

  complete_job-IsFinished :
      (out : Outside R Bytes) (d j n count : ℕ) (st : Status) (s : Server)
      → 0 < n
      → HoldsJob R d j n st s
      → IsFinished d j n (complete_job R Bytes out j count s).0
  unfolding complete_job
  complete_job-IsFinished out d j n count st s pos v = go (out.delete_job_tiles j) refl
    where
      s' : Server
      s' =
          delete_job_tile_state R j out.attempt_tiles
            (mark_job_completed R j out.result_path out.now s)

      done : HoldsJob R d j n Status.completed s'
      done =
          HoldsJob-same R d j n Status.completed _ s'
            (job-delete_job_tile_state R j out.attempt_tiles
              (mark_job_completed R j out.result_path out.now s))
            (mark_job_completed-HoldsJob R d j n out.now st out.result_path s v)

      swept : entry (tiles j) s' ≡ missing
      swept =
          tiles-delete_job_tile_state R j out.attempt_tiles
            (mark_job_completed R j out.result_path out.now s)

      finished : IsFinished d j n s'
      finished = record {
        completed = done;
        swept = swept;
        final = λ again. reconstruct_job-early again d j n Status.completed s' done (
            let none_left : (entry (tiles j) s').size ≡ 0 = ap (λ e. e.size) swept in
            omega (arith, none_left, pos));
      }

      go :
          (r : Result (Unit {0}))
          → out.delete_job_tiles j ≡ r
          → IsFinished d j n (complete_job R Bytes out j count s).0
      go (ok _) e = rw (e, complete_job) finished
      go (raise x) e = rw (e, complete_job) finished

  -- What a call at the server leaves and answers.
  abbrev pub Course : ℕ → ℕ → ℕ → Server → Server × Response → Type 0
  Course d j n s p =
      ((p.0 ≡ s) × ((code : ℕ) × (p.1 ≡ refused code)))
      ⊎ ((n ≤ (entry (tiles j) s).size) × IsFinished d j n p.0)

  -- For a readable job that expects some tile, a call either changes nothing at the server and is
  -- refused, or it finds at least the expected number of distinct tiles, the job is completed, none
  -- of its tiles is left, and every further call is refused with 400 and changes nothing.
  pub reconstruct_job-IsFinished :
      (out : Outside R Bytes) (d j n : ℕ) (st : Status) (s : Server)
      → 0 < n
      → HoldsJob R d j n st s
      → Course d j n s (reconstruct_job R Bytes out d j s)
  unfolding reconstruct_job
  reconstruct_job-IsFinished out d j n st s pos v =
      elim (Bool-cases (ltb (count_tile_results R j s) n)) [
        | inl few ↦
            rw (get_job-HoldsJob R d j n st s v, reconstruct_job, few) (inl (refl, (400, refl)))
        | inr enough ↦
            rw (get_job-HoldsJob R d j n st s v, reconstruct_job, enough)
              (go enough (draw R Bytes out j found s))
      ]
    where
      found : Job
      found = read_job d j n st (entry (job j) s).fields v.job_hash

      go :
          ltb (count_tile_results R j s) n ≡ false
          → (r : Result ℕ)
          → Course d j n s
              (elim r [ raise e ↦ (s, refused 500) | ok k ↦ complete_job R Bytes out j k s ])
      go enough (raise e) = inl (refl, (500, refl))
      go enough (ok k) =
          inr (ground (arith, enough), complete_job-IsFinished out d j n k st s pos v)
