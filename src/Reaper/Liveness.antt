-- ===== src/Reaper/Liveness.antt =====
-- That the sweeps of master/reaper.py end a job whose missing tiles never come.
pub mod Lift
pub mod Step
use dip.Prelude.{
  ℕ, ◌+◌, ◌≤◌, ◌<◌, ◌≡◌, ◌⊎◌, refl, sym, subst, ap, ◌∙◌, max, List, [], ◌∷◌, none, Bool, true,
  false, ◌||◌, ◌==◌, not, ltb, ok, arith, inl, inr, Bool-cases, All, All-imp, length, contains,
  keep_if, keep_if-All, ==-refl,
}
use dip.Redis.{Redis, job, tiles, Field, Status}
use dip.Jobstore.{
  Job, int_or, get_last_reap_time, get_tile_results, get_abandoned_tiles, tile_info_of,
}
use dip.Jobstore.View.{HoldsJob, get_job-HoldsJob, read_job}
use dip.Reaper.Invariant.{requeue_job-inv, All-trivial}
use dip.Reaper.Decision.{
  IsHopeless, is_missing, IsRetryable, Retryable-All, retryable, missing-covers,
  none_retryable-IsHopeless, reap_job_late, reap_job-IsHopeless,
}
use dip.Reaper.Frame.{entry-reap_once-tiles, field-reap_once}
use dip.Reaper.Outcome.{fate, reap_once-Settled}
use dip.Reaper.Liveness.Lift.{Level, Sends, kept-Level, requeue_job-lift}
use dip.Reaper.{
  Config, Outside, Sweep, missing_tile_ids, requeue_job, reap_missing, reap_job_data, reap_job,
  reap_once,
}
use dip.Reaper.Liveness.Step.{
  Waits, get_tile_results-reap_once, reap_once-degraded, reap_once-Waits,
}

-- Each sweep comes when the job was quiet for the timeout, since its creation and since the last.
abbrev pub IsSpaced : ℕ → ℕ → ℕ → List ℕ → Type 0
IsSpaced timeout created last [] = Unit {0}
IsSpaced timeout created last (now ∷ nows) =
    (max created last + timeout ≤ now) × IsSpaced timeout created now nows

module _ (R : Redis) (c : Config) (out : Outside) (j : ℕ) where
  open R use {Server, entry}

  -- The sweeps of the leader at these times, none of which a result comes between.
  abbrev pub reap_often : List ℕ → Sweep R → Sweep R
  reap_often [] w = w
  reap_often (now ∷ nows) w = reap_often nows (reap_once R c out now ((true, j) ∷ []) w)

  module _ (n : ℕ) where
    reap_often-degraded :
        (nows : List ℕ) (w : Sweep R)
        → HoldsJob R c.default_tile_size j n Status.degraded w.server
        → HoldsJob R c.default_tile_size j n Status.degraded (reap_often nows w).server
    reap_often-degraded [] w v = v
    reap_often-degraded (now ∷ nows) w v =
        subst (λ w'. HoldsJob R c.default_tile_size j n Status.degraded (reap_often nows w').server)
          (sym (reap_once-degraded R c out j n now w v)) (reap_often-degraded nows w v)

    -- At the last level every tile is abandoned.
    top_Level :
        (k t : ℕ) (s : Server)
        → max c.max_tile_attempts 1 ≤ k
        → Level R c out j k t s
        → get_abandoned_tiles R j s t ≡ true
    top_Level k t s le (inl gone) = gone
    top_Level k t s le (inr (low, lt)) = absurd (omega (arith, le, lt))

    reap_often-Waits :
        (sends : Sends R c out j) (k last created tile_size : ℕ) (nows : List ℕ) (w : Sweep R)
        → Waits R c out j n k last created tile_size w
        → IsSpaced c.outstanding_timeout created last nows
        → 0 < tile_size
        → ((t : ℕ) × (t < n) × (get_tile_results R j w.server t ≡ none))
        → k ≤ max c.max_tile_attempts 1
        → max c.max_tile_attempts 1 < k + length nows
        → HoldsJob R c.default_tile_size j n Status.degraded (reap_often nows w).server
    reap_often-Waits sends k last created tile_size [] w q spaced positive some_missing le lt =
        absurd (omega (arith, le, lt))
    reap_often-Waits sends k last created tile_size (now ∷ nows) w q spaced positive some_missing le
          lt =
        elim (reap_once-Waits R c out j n now sends k last created tile_size w q spaced.0 positive
          some_missing) [
            | inl done ↦ reap_often-degraded nows _ done
            | inr (h, q') ↦ elim (Bool-cases (ltb k (max c.max_tile_attempts 1))) [
              | inl below ↦
                  reap_often-Waits sends (k + 1) now created tile_size nows _ q' spaced.1 positive
                    (
                      some_missing.0,
                      some_missing.1,
                      get_tile_results-reap_once R c out j n now w some_missing.0 ∙ some_missing.2,
                    )
                    (ground (arith, below)) (omega (arith, lt))
              | inr top ↦ absurd (
                  h (
                    some_missing,
                    λ t lt' none_yet.
                        top_Level k t w.server (ground (arith, top)) (q.levels t lt' none_yet),
                  ))
            ]
          ]

    -- If no result comes and the producer raises nothing, a job with a missing tile is 'degraded'
    -- after one sweep more than MAX_TILE_ATTEMPTS (or than one, if that is 0), each of them at the
    -- timeout behind the one before.
    pub reap_often-IsGivenUp :
        (sends : Sends R c out j) (last : ℕ) (nows : List ℕ) (w : Sweep R)
        → (v : HoldsJob R c.default_tile_size j n Status.processing w.server)
        → 0 < v.job_hash.tile_size.0
        → get_last_reap_time R j w.server ≡ ok last
        → contains j w.degraded ≡ false
        → ((t : ℕ) × (t < n) × (get_tile_results R j w.server t ≡ none))
        → IsSpaced c.outstanding_timeout v.job_hash.timestamp.0 last nows
        → max c.max_tile_attempts 1 < length nows
        → HoldsJob R c.default_tile_size j n Status.degraded (reap_often nows w).server
    reap_often-IsGivenUp sends last nows w v positive e fresh some_missing spaced enough =
        reap_often-Waits sends 0 last v.job_hash.timestamp.0 v.job_hash.tile_size.0 nows w
          (record {
            held = v;
            size = v.job_hash.tile_size.1;
            stamp = v.job_hash.timestamp.1;
            noted = e;
            not_given_up = fresh;
            levels = λ t lt none_yet. inr (omega arith, omega arith);
          })
          spaced positive some_missing (omega arith) (omega (arith, enough))
