-- ===== src/Reaper/Outcome.antt =====
-- What a sweep of master/reaper.py makes of the status of a job.
use dip.Prelude.{
  ℕ, refl, sym, subst, List, Bool, ◌==◌, if◌then◌else◌, arith, inl, inr, Bool-cases, ==_iff,
  contains,
}
use dip.Imaging.{Geometry}
use dip.Redis.{Redis, job, Operation, Status}
use dip.Jobstore.{incr_tile_attempts, set_job_status, set_last_reap_time}
use dip.Jobstore.View.{HoldsJob, HoldsJob-same}
use dip.Jobstore.Frame.{
  entry-incr_tile_attempts, entry-add_abandoned_tile, entry-set_job_status,
  entry-set_last_reap_time, set_job_status-HoldsJob, set_last_reap_time-HoldsJob,
}
use dip.Reaper.Cases.{reap_tile_cases}
use dip.Reaper.Invariant.{reap_once-inv}
use dip.Reaper.{Config, Outside, Sweep, degrade, reap_tile, reap_once}

-- The status of a job that was `st`, given the jobs that were given up since.
abbrev pub fate : Status → ℕ → List ℕ → Status
fate st j given_up = if contains j given_up then Status.degraded else st

module _ (R : Redis) (c : Config) where
  open R use {Server, entry}

  module _ (d j n : ℕ) (st : Status) where
    -- The job is readable; its status is `st`, or 'degraded' if the sweep gave it up.
    abbrev pub Settled : Sweep R → Type 0
    Settled w = HoldsJob R d j n (fate st j w.degraded) w.server

    reap_tile-Settled :
        (out : Outside) (j' : ℕ) (o : Operation) (gs : List Geometry) (t : ℕ) (w : Sweep R)
        → Settled w
        → Settled (reap_tile R c out j' o gs t w).0
    reap_tile-Settled out j' o gs t w v =
        reap_tile_cases R c out j' o gs Settled t w
          (HoldsJob-same R d j n _ _ _ (entry-add_abandoned_tile R j' _ (job j) t refl) counted)
          counted (λ g e le there. counted)
      where
        counted : HoldsJob R d j n (fate st j w.degraded) (incr_tile_attempts R j' t w.server).0
        counted =
            HoldsJob-same R d j n _ _ _ (entry-incr_tile_attempts R j' w.server (job j) t refl) v

    noted-Settled :
        (now j' : ℕ) (w : Sweep R)
        → Settled w
        → Settled (record w { server = set_last_reap_time R j' now w.server })
    noted-Settled now j' w v = elim (Bool-cases (j' == j)) [
      | inl here ↦
          subst (λ k. HoldsJob R d j n (fate st j w.degraded) (set_last_reap_time R k now w.server))
            (sym ((==_iff j' j).0 here)) (set_last_reap_time-HoldsJob R d j n now _ w.server v)
      | inr away ↦
          HoldsJob-same R d j n _ _ _
            (entry-set_last_reap_time R j' w.server (job j) now (ground (arith, away))) v
    ]

    degrade-Settled : (j' : ℕ) (w : Sweep R) → Settled w → Settled (degrade R j' w)
    degrade-Settled j' w v = elim (Bool-cases (j == j')) [
      | inl here ↦ rw here (
          subst
            (λ k. HoldsJob R d j n Status.degraded (set_job_status R k Status.degraded w.server))
            ((==_iff j j').0 here) (set_job_status-HoldsJob R d j n _ Status.degraded w.server v))
      | inr away ↦ rw away (
          HoldsJob-same R d j n _ _ _
            (entry-set_job_status R j' w.server (job j) Status.degraded (ground (arith, away))) v)
    ]

    -- A sweep over any jobs leaves a readable job readable, with its number of tiles; its status is
    -- 'degraded' if the sweep gave the job up, and what it was if not.
    pub reap_once-Settled :
        (out : Outside) (now : ℕ) (jobs : List (Bool × ℕ)) (w : Sweep R)
        → Settled w
        → Settled (reap_once R c out now jobs w)
    reap_once-Settled out now = reap_once-inv R c out now Settled (record {
      requeue = λ j'. record {
        tile = λ o gs t w _. reap_tile-Settled out j' o gs t w;
        noted = noted-Settled now j';
      };
      given_up = degrade-Settled;
    })
