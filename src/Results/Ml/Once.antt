-- ===== src/Results/Ml/Once.antt =====
-- A detection job is finished once, whatever messages of `ml_results` are polled.
use dip.Prelude.{
  ℕ, ◌+◌, ◌≤◌, ◌<◌, ◌≡◌, refl, subst, ap, ◌∙◌, List, [], ◌∷◌, Bool, true, false, ◌==◌, leb, ◌&&◌,
  Result, ok, raise, if◌then◌else◌, arith, inl, inr, Bool-cases, ==_iff, ==-refl,
}
use dip.Redis.{Redis, Key, job, tiles, owner, Status, Field, Value, hset, missing}
use dip.Jobstore.{NewJob, create_job}
use dip.Jobstore.Record.{after, record-other, size-record, returned-record, entry-command_other}
use dip.Jobstore.View.{
  HoldsJob, get_job-HoldsJob, record-HoldsJob, hset_status-HoldsJob, HoldsJob-same,
  create_job-HoldsJob, entry-create_job,
}
use dip.Results.{Delivery, is_processing, Polled, nothing, consumer_error, invalid_json, message}
use dip.Results.Ml.{
  MlState, read_ml_message, finish, deliver_ml, process_ml_message, poll_ml_once, listen_ml,
}

abbrev pub ml_status : ℕ → ℕ → Status
ml_status expected received = if leb expected received then Status.completed else Status.processing

abbrev pub occurrences : ℕ → List ℕ → ℕ
occurrences j [] = 0
occurrences j (k ∷ ks) = (if k == j then 1 else 0) + occurrences j ks

module _ (R : Redis) where
  open R use {Server, entry, entry-command}

  -- The job is readable, 'completed' exactly if the server has its expected number of distinct
  -- tiles, and was counted as finished once in that case and never in the other.
  pub record IsFinishedOnce (d j n : ℕ) (w : MlState R) : Type 0 where
    pub held : HoldsJob R d j n (ml_status n (entry (tiles j) w.server).size) w.server
    pub once : occurrences j w.finished ≡ (if leb n (entry (tiles j) w.server).size then 1 else 0)

  module _ (d : ℕ) (sweep : ℕ → Result (Unit {0})) where
    finish-other :
        (j c : ℕ) (k : Key) (w : MlState R)
        → (j == owner k) ≡ false
        → entry k (finish R d sweep j c w).0.server ≡ entry k w.server
    unfolding finish
    finish-other j c k w e = ground (
      arith,
      entry-command_other R (job j) k (hset ((Field.status, Value.status Status.completed) ∷ []))
          w.server e,
    )

    finish-occurrences :
        (j j' c : ℕ) (w : MlState R)
        → (j == j') ≡ false
        → occurrences j' (finish R d sweep j c w).0.finished ≡ occurrences j' w.finished
    unfolding finish
    finish-occurrences j j' c w e = ground (arith, e)

    finish-tiles :
        (j c : ℕ) (w : MlState R)
        → entry (tiles j) (finish R d sweep j c w).0.server ≡ entry (tiles j) w.server
    unfolding finish
    finish-tiles j c w = ground (
      arith,
      entry-command (job j) (tiles j) (hset ((Field.status, Value.status Status.completed) ∷ []))
          w.server,
    )

    -- `old` tiles were there before the result, `c` are there now.
    finish_self :
        (j n old c : ℕ) (w : MlState R)
        → HoldsJob R d j n (ml_status n old) w.server
        → old ≤ c
        → occurrences j w.finished ≡ (if leb n old then 1 else 0)
        → HoldsJob R d j n (ml_status n c) (finish R d sweep j c w).0.server
          × (occurrences j (finish R d sweep j c w).0.finished ≡ (if leb n c then 1 else 0))
    unfolding finish
    finish_self j n old c w v le once =
        elim (Bool-cases (is_processing (ml_status n old) && leb n c)) [
          | inl e ↦
              let full : ml_status n c ≡ Status.completed = ground (arith, e) in
              rw (get_job-HoldsJob R d j n (ml_status n old) w.server v, finish, e, full)
                (
                  hset_status-HoldsJob R d j n (ml_status n old) Status.completed w.server v,
                  ground (arith, e, once, ==-refl j),
                )
          | inr e ↦
              let same : ml_status n old ≡ ml_status n c = ground (arith, e, le) in
              rw (get_job-HoldsJob R d j n (ml_status n old) w.server v, finish, e)
                (subst (λ st. HoldsJob R d j n st w.server) same v, ground (arith, e, once, le))
        ]

    deliver_ml_lem :
        (m : Delivery) (w : MlState R)
        → let s' = after R m.job_id m.tile_id m.info m.processing_time w.server in
          deliver_ml R d sweep m w
          ≡ finish R d sweep m.job_id (entry (tiles m.job_id) s').size (record w { server = s' })
    unfolding deliver_ml
    deliver_ml_lem m w =
        ap
          (λ c.
            finish R d sweep m.job_id c
              (record w { server = after R m.job_id m.tile_id m.info m.processing_time w.server }))
          (returned-record R m.job_id m.tile_id m.info m.processing_time w.server)

    deliver_ml_self :
        (j n : ℕ) (m : Delivery) (w : MlState R) (s' : Server)
        → s' ≡ after R j m.tile_id m.info m.processing_time w.server
        → IsFinishedOnce d j n w
        → IsFinishedOnce d j n
            (finish R d sweep j (entry (tiles j) s').size (record w { server = s' })).0
    deliver_ml_self j n m w s' es v =
        let old = (entry (tiles j) w.server).size in
        let c = (entry (tiles j) s').size in
        let grown : old ≤ c =
          rw es (omega (arith, size-record R j m.tile_id m.info m.processing_time w.server)) in
        let both =
          finish_self j n old c (record w { server = s' })
            (rw es (
              record-HoldsJob R d j n j m.tile_id (ml_status n old) m.info m.processing_time
                w.server v.held))
            grown v.once in
        record {
          held = rw (finish-tiles j c (record w { server = s' })) both.0;
          once = rw (finish-tiles j c (record w { server = s' })) both.1;
        }

    IsFinishedOnce-same :
        (j n : ℕ) (w w' : MlState R)
        → entry (tiles j) w'.server ≡ entry (tiles j) w.server
        → entry (job j) w'.server ≡ entry (job j) w.server
        → occurrences j w'.finished ≡ occurrences j w.finished
        → IsFinishedOnce d j n w
        → IsFinishedOnce d j n w'
    IsFinishedOnce-same j n w w' e f g v = record {
      held = rw e (HoldsJob-same R d j n _ w.server w'.server f v.held);
      once = rw (e, g) v.once;
    }

    deliver_ml-IsFinishedOnce :
        (j n : ℕ) (m : Delivery) (w : MlState R)
        → IsFinishedOnce d j n w
        → IsFinishedOnce d j n (deliver_ml R d sweep m w).0
    deliver_ml-IsFinishedOnce j n m w v = elim (Bool-cases (m.job_id == j)) [
      | inl here ↦
          rw (deliver_ml_lem m w, (==_iff m.job_id j).0 here) (deliver_ml_self j n m w _ refl v)
      | inr away ↦ rw (deliver_ml_lem m w) (
          IsFinishedOnce-same j n w _ (untouched (tiles j) away) (untouched (job j) away)
            (finish-occurrences m.job_id j _ _ away) v)
    ]
      where
        untouched :
            (k : Key)
            → (m.job_id == owner k) ≡ false
            → let s' = after R m.job_id m.tile_id m.info m.processing_time w.server in
              entry k
                (finish R d sweep m.job_id
                  (entry (tiles m.job_id) s').size
                  (record w { server = s' })).0.server
              ≡ entry k w.server
        untouched k e =
            finish-other m.job_id _ k _ e
            ∙ record-other R m.job_id m.tile_id m.info m.processing_time w.server k e

    poll_ml_once-IsFinishedOnce :
        (j n : ℕ) (polled : Polled) (w : MlState R)
        → IsFinishedOnce d j n w
        → IsFinishedOnce d j n (poll_ml_once R d sweep polled w).0
    unfolding poll_ml_once process_ml_message
    poll_ml_once-IsFinishedOnce j n nothing w v = v
    poll_ml_once-IsFinishedOnce j n consumer_error w v = v
    poll_ml_once-IsFinishedOnce j n invalid_json w v = v
    poll_ml_once-IsFinishedOnce j n (message m) w v = go (read_ml_message m) refl
      where
        go :
            (r : Result Delivery)
            → read_ml_message m ≡ r
            → IsFinishedOnce d j n (process_ml_message R d sweep m w).0
        go (ok x) e = rw (e, process_ml_message) (deliver_ml-IsFinishedOnce j n x w v)
        go (raise x) e = rw (e, process_ml_message) v

  listen_ml-inv :
      (d j n : ℕ) (rounds : List (Bool × (ℕ → Result (Unit {0})) × Polled)) (w : MlState R)
      → IsFinishedOnce d j n w
      → IsFinishedOnce d j n (listen_ml R d rounds w)
  unfolding listen_ml
  listen_ml-inv d j n [] w v = v
  listen_ml-inv d j n ((false, sweep, polled) ∷ rounds) w v = listen_ml-inv d j n rounds w v
  listen_ml-inv d j n ((true, sweep, polled) ∷ rounds) w v =
      listen_ml-inv d j n rounds _ (poll_ml_once-IsFinishedOnce d sweep j n polled w v)

  -- A detection job is created with a positive number of expected tiles, under an id that no key
  -- uses. Whatever the listener polls afterwards, over any terms of leadership, with duplicates,
  -- broken messages, other jobs and failing sweeps of blobs, and as long as nothing else writes
  -- the job (the reaper does not give it up), the job is 'completed' exactly if the server has
  -- its expected number of distinct tiles and 'processing' if not, and it was counted as finished
  -- exactly once in the first case and never in the second.
  pub listen_ml-IsFinishedOnce :
      (d j now : ℕ) (new : NewJob) (rounds : List (Bool × (ℕ → Result (Unit {0})) × Polled))
      (s : Server)
      → 0 < new.expected_tiles
      → entry (job j) s ≡ missing
      → entry (tiles j) s ≡ missing
      → IsFinishedOnce d j new.expected_tiles
          (listen_ml R d rounds (record { server = create_job R j new now s; finished = [] }))
  listen_ml-IsFinishedOnce d j now new rounds s pos no_job no_tiles =
      let none_yet : (entry (tiles j) (create_job R j new now s)).size ≡ 0 =
        rw (entry-create_job R j now new s (tiles j) refl, no_tiles) refl in
      let e : leb new.expected_tiles 0 ≡ false = ground (arith, pos) in
      listen_ml-inv d j new.expected_tiles rounds _ (record {
        held = rw (none_yet, e) (create_job-HoldsJob R d j now new s no_job);
        once = rw (none_yet, e) refl;
      })
