-- ===== src/Reaper/Budget.antt =====
-- The attempts of the reaper: how often a tile is sent again, whatever happens in between.
use dip.Prelude.{
  ℕ, ◌+◌, ◌-◌, ◌≤◌, ◌≡◌, refl, ap, List, [], ◌∷◌, Bool, ◌&&◌, ◌==◌, if◌then◌else◌, arith,
}
use dip.Imaging.{Geometry}
use dip.Redis.{Redis, attempts, Status, Operation}
use dip.Tasks.{Task}
use dip.Results.{Delivery, deliver}
use dip.Results.History.{deliver-attempts}
use dip.Jobstore.{incr_tile_attempts, add_abandoned_tile}
use dip.Jobstore.Frame.{
  counter-incr_tile_attempts, returned-incr_tile_attempts, entry-add_abandoned_tile,
  entry-set_job_status, entry-set_last_reap_time,
}
use dip.Reaper.Invariant.{IsKept, reap_once-inv}
use dip.Reaper.Cases.{reap_tile_cases}
use dip.Reaper.{Config, Outside, Sweep, reap_tile, reap_once}

-- The tasks of tile `t` of job `j` among those that were sent.
abbrev pub sent_for : ℕ → ℕ → List Task → ℕ
sent_for j t [] = 0
sent_for j t (k ∷ ks) = (if k.job_id == j && k.tile_id == t then 1 else 0) + sent_for j t ks

-- What can happen: a sweep, with its clock, what the outside answers, and the scanned jobs with the
-- answers of `is_leader`; or a result that is processed.
pub data Event : Type 0 where
  swept : Outside → ℕ → List (Bool × ℕ) → Event
  delivered : Delivery → Event

module _ (R : Redis) where
  open R use {Server, entry, command, entry-command, reply-answer}

  abbrev pub count_of : ℕ → ℕ → Server → ℕ
  count_of j t s = (entry (attempts j t) s).counter

  module _ (c : Config) (j t : ℕ) where
    -- The tile was sent no more often than it was counted, and less often than the cap on attempts,
    -- of which the original dispatch is one.
    pub record WithinBudget (w : Sweep R) : Type 0 where
      pub counted : sent_for j t w.sent ≤ count_of j t w.server
      pub capped : sent_for j t w.sent ≤ c.max_tile_attempts - 1

    count-after-incr :
        (j' t' : ℕ) (s : Server)
        → count_of j t (incr_tile_attempts R j' t' s).0
          ≡ count_of j t s + (if j' == j && t' == t then 1 else 0)
    count-after-incr j' t' s = counter-incr_tile_attempts R j' t' j t s

    count-after-abandon :
        (j' t' : ℕ) (s : Server) → count_of j t (add_abandoned_tile R j' t' s) ≡ count_of j t s
    count-after-abandon j' t' s =
        ap (λ e. e.counter) (entry-add_abandoned_tile R j' s (attempts j t) t' refl)

    reap_tile-WithinBudget :
        (out : Outside) (j' : ℕ) (o : Operation) (gs : List Geometry) (t' : ℕ) (w : Sweep R)
        → WithinBudget w
        → WithinBudget (reap_tile R c out j' o gs t' w).0
    reap_tile-WithinBudget out j' o gs t' w v =
        reap_tile_cases R c out j' o gs WithinBudget t' w
          (record {
            counted = omega (
              arith,
              v.counted,
              count-after-incr j' t' w.server,
              count-after-abandon j' t' (incr_tile_attempts R j' t' w.server).0,
            );
            capped = v.capped;
          })
          (record {
            counted = omega (arith, v.counted, count-after-incr j' t' w.server);
            capped = v.capped;
          })
          (λ g e under there. record {
            counted = ground (arith, e, v.counted, count-after-incr j' t' w.server);
            capped = ground (
              arith,
              e,
              v.counted,
              v.capped,
              under,
              count-after-incr j' t' w.server,
              returned-incr_tile_attempts R j' t' w.server,
            );
          })

    IsKept-WithinBudget : (out : Outside) (now : ℕ) → IsKept R c out now WithinBudget
    IsKept-WithinBudget out now = record {
      requeue = λ j'. record {
        tile = λ o gs t' w _. reap_tile-WithinBudget out j' o gs t' w;
        noted = λ w v. record {
          counted =
              rw (entry-set_last_reap_time R j' w.server (attempts j t) now refl, count_of)
                v.counted;
          capped = v.capped;
        };
      };
      given_up = λ j' w v. record {
        counted =
            rw (entry-set_job_status R j' w.server (attempts j t) Status.degraded refl, count_of)
              v.counted;
        capped = v.capped;
      };
    }

    delivered-WithinBudget :
        (m : Delivery) (w : Sweep R)
        → WithinBudget w
        → WithinBudget (record w { server = (deliver R c.default_tile_size m w.server).0 })
    delivered-WithinBudget m w v = record {
      counted = rw (deliver-attempts R c.default_tile_size m j t w.server, count_of) v.counted;
      capped = v.capped;
    }

  -- A history: the tasks that were sent are collected, and no Kafka message or reply is lost from
  -- it.
  abbrev pub happen : Config → Event → Sweep R → Sweep R
  happen c (swept out now jobs) w = reap_once R c out now jobs w
  happen c (delivered m) w = record w { server = (deliver R c.default_tile_size m w.server).0 }

  abbrev pub run : Config → List Event → Sweep R → Sweep R
  run c [] w = w
  run c (e ∷ es) w = run c es (happen c e w)

  run-WithinBudget :
      (c : Config) (j t : ℕ) (es : List Event) (w : Sweep R)
      → WithinBudget c j t w
      → WithinBudget c j t (run c es w)
  run-WithinBudget c j t [] w v = v
  run-WithinBudget c j t (swept out now jobs ∷ es) w v =
      run-WithinBudget c j t es _ (
        reap_once-inv R c out now (WithinBudget c j t) (IsKept-WithinBudget c j t out now) jobs w v)
  run-WithinBudget c j t (delivered m ∷ es) w v =
      run-WithinBudget c j t es _ (delivered-WithinBudget c j t m w v)

  -- Over any history of sweeps, of any masters, clocks and failures, with results processed in
  -- between and while the keys of the job do not expire, no tile of any job is sent again more
  -- often than MAX_TILE_ATTEMPTS - 1 times, nor more often than its counter in Redis says. The
  -- server may start in any state; only the record of the tasks that were sent starts empty.
  pub sent_for-run :
      (c : Config) (es : List Event) (s : Server) (j t : ℕ)
      → let w = run c es (record { server = s; sent = []; requeued = 0; degraded = [] }) in
        (sent_for j t w.sent ≤ c.max_tile_attempts - 1)
        × (sent_for j t w.sent ≤ count_of j t w.server)
  sent_for-run c es s j t =
      let v =
        run-WithinBudget c j t es _ (record { counted = omega arith; capped = omega arith }) in
      (v.capped, v.counted)
