-- ===== src/Results/History.antt =====
-- What a history of messages leaves of a job.
use dip.Prelude.{
  true, false, Bool, ℕ, ◌+◌, ◌≤◌, ◌<◌, ◌≡◌, refl, subst, ap, ◌∙◌, List, [], ◌∷◌, false, ◌==◌, leb,
  Result, ok, raise, if◌then◌else◌, ◌&&◌, arith, inl, inr, Bool-cases, ==_iff, contains,
}
use dip.Redis.{
  Redis, Key, job, tiles, attempts, owner, Field, Status, Value, missing, is_none, hset, TileInfo,
}
use dip.Jobstore.{NewJob, create_job}
use dip.Jobstore.Record.{
  after, record-other, size-record, fields-record, returned-record, record-attempts,
  entry-command_other,
}
use dip.Jobstore.View.{
  HoldsJob, get_job-HoldsJob, record-HoldsJob, hset_status-HoldsJob, HoldsJob-same,
  create_job-HoldsJob, entry-create_job,
}
use dip.Results.{
  Polled, nothing, consumer_error, invalid_json, message, poll_once, listen, ResultMessage,
  Delivery, read_message, mark_ready, deliver, process_message, is_processing,
}

-- The tiles of job `j` in a list of messages, of those messages that can be read.
abbrev pub deliveries : ℕ → List ResultMessage → List ℕ
deliveries j [] = []
deliveries j (m ∷ ms) = elim (read_message m) [
  | ok d ↦ if d.job_id == j then d.tile_id ∷ deliveries j ms else deliveries j ms
  | raise e ↦ deliveries j ms
]

-- The messages that the listener hears while it is the leader, put before those heard before,
-- the newest first.
abbrev pub heard : List (Bool × Polled) → List ResultMessage → List ResultMessage
heard [] ms = ms
heard ((false, polled) ∷ rounds) ms = heard rounds ms
heard ((true, message m) ∷ rounds) ms = heard rounds (m ∷ ms)
heard ((true, polled) ∷ rounds) ms = heard rounds ms

abbrev pub distinct : List ℕ → ℕ
distinct [] = 0
distinct (t ∷ ts) = (if contains t ts then 0 else 1) + distinct ts

abbrev pub status_for : ℕ → ℕ → Status
status_for expected received =
    if leb expected received then Status.ready_for_reconstruction else Status.processing

module _ (R : Redis) where
  open R use {Server, entry, entry-command}

  mark_ready-other :
      (d j c : ℕ) (k : Key) (s : Server)
      → (j == owner k) ≡ false
      → entry k (mark_ready R d j c s).0 ≡ entry k s
  unfolding mark_ready
  mark_ready-other d j c k s e = ground (
    arith,
    entry-command_other R (job j) k
        (hset ((Field.status, Value.status Status.ready_for_reconstruction) ∷ [])) s e,
  )

  mark_ready-tiles :
      (d j c : ℕ) (s : Server) → entry (tiles j) (mark_ready R d j c s).0 ≡ entry (tiles j) s
  unfolding mark_ready
  mark_ready-tiles d j c s = ground (
    arith,
    entry-command (job j) (tiles j)
        (hset ((Field.status, Value.status Status.ready_for_reconstruction) ∷ [])) s,
  )

  mark_ready-HoldsJob :
      (d j n c : ℕ) (st : Status) (s : Server)
      → HoldsJob R d j n st s
      → HoldsJob R d j n
          (if is_processing st && leb n c then Status.ready_for_reconstruction else st)
          (mark_ready R d j c s).0
  unfolding mark_ready
  mark_ready-HoldsJob d j n c st s v = elim (Bool-cases (is_processing st && leb n c)) [
    | inl e ↦
        rw (get_job-HoldsJob R d j n st s v, mark_ready, e)
          (hset_status-HoldsJob R d j n st Status.ready_for_reconstruction s v)
    | inr e ↦ rw (get_job-HoldsJob R d j n st s v, mark_ready, e) v
  ]

  -- A result touches no attempt counter.
  pub deliver-attempts :
      (d : ℕ) (m : Delivery) (j t : ℕ) (s : Server)
      → entry (attempts j t) (deliver R d m s).0 ≡ entry (attempts j t) s
  unfolding deliver mark_ready
  deliver-attempts d m j t s = ground (
    arith,
    record-attempts R m.job_id m.tile_id m.info m.processing_time s j t,
    entry-command (job m.job_id) (attempts j t)
        (hset ((Field.status, Value.status Status.ready_for_reconstruction) ∷ []))
        (after R m.job_id m.tile_id m.info m.processing_time s),
  )

  -- What the history says of job `j`, read off the state: which tiles it holds, how many, and the
  -- status of the job.
  pub record Tracks (d j n : ℕ) (ts : List ℕ) (s : Server) : Type 0 where
    pub received :
        (t : ℕ)
        → is_none ((entry (tiles j) s).fields (Field.tile t)) ≡ (if contains t ts then 0 else 1)
    pub counted : (entry (tiles j) s).size ≡ distinct ts
    pub held : HoldsJob R d j n (status_for n (distinct ts)) s

  Tracks-same :
      (d j n : ℕ) (ts : List ℕ) (s s' : Server)
      → entry (tiles j) s' ≡ entry (tiles j) s
      → entry (job j) s' ≡ entry (job j) s
      → Tracks d j n ts s
      → Tracks d j n ts s'
  Tracks-same d j n ts s s' e f v = record {
    received = λ t. rw e (v.received t);
    counted = rw e v.counted;
    held = HoldsJob-same R d j n _ s s' f v.held;
  }

  status_for-step :
      (n c c' : ℕ)
      → c ≤ c'
      → (if is_processing (status_for n c) && leb n c'
          then Status.ready_for_reconstruction
          else status_for n c)
        ≡ status_for n c'
  status_for-step n c c' h = ground arith

  deliver_lem :
      (d : ℕ) (m : Delivery) (s : Server)
      → let s' = after R m.job_id m.tile_id m.info m.processing_time s in
        deliver R d m s ≡ mark_ready R d m.job_id (entry (tiles m.job_id) s').size s'
  unfolding deliver
  deliver_lem d m s =
      ap (λ c. mark_ready R d m.job_id c (after R m.job_id m.tile_id m.info m.processing_time s))
        (returned-record R m.job_id m.tile_id m.info m.processing_time s)

  deliver-Tracks_self :
      (d n j t time : ℕ) (info : TileInfo) (ts : List ℕ) (s s' : Server)
      → s' ≡ after R j t info time s
      → Tracks d j n ts s
      → Tracks d j n (t ∷ ts) (mark_ready R d j (entry (tiles j) s').size s').0
  deliver-Tracks_self d n j t time info ts s s' es v = record {
    received = λ u.
        rw (mark_ready-tiles d j c s', es)
          (ground (arith, fields-record R j t info time s (Field.tile u), v.received u));
    counted = rw (mark_ready-tiles d j c s') count;
    held =
        subst (λ st. HoldsJob R d j n st (mark_ready R d j c s').0)
          (ap
              (λ k.
                if is_processing (status_for n (distinct ts)) && leb n k
                then Status.ready_for_reconstruction
                else status_for n (distinct ts))
              count
            ∙ status_for-step n (distinct ts) (distinct (t ∷ ts)) (omega arith))
          (mark_ready-HoldsJob d j n c (status_for n (distinct ts)) s'
            (rw es (record-HoldsJob R d j n j t (status_for n (distinct ts)) info time s v.held)));
  }
    where
      c : ℕ
      c = (entry (tiles j) s').size

      count : c ≡ distinct (t ∷ ts)
      count = rw es (omega (arith, size-record R j t info time s, v.received t, v.counted))

  deliver-Tracks :
      (d n j : ℕ) (m : Delivery) (ts : List ℕ) (s : Server)
      → Tracks d j n ts s
      → Tracks d j n (if m.job_id == j then m.tile_id ∷ ts else ts) (deliver R d m s).0
  deliver-Tracks d n j m ts s v = elim (Bool-cases (m.job_id == j)) [
    | inl here ↦
        rw (here, deliver_lem d m s, (==_iff m.job_id j).0 here)
          (deliver-Tracks_self d n j m.tile_id m.processing_time m.info ts s _ refl v)
    | inr away ↦
        rw (away, deliver_lem d m s)
          (Tracks-same d j n ts s _ (untouched (tiles j) away) (untouched (job j) away) v)
  ]
    where
      untouched :
          (k : Key)
          → (m.job_id == owner k) ≡ false
          → entry k
              (mark_ready R d m.job_id
                (entry
                  (tiles m.job_id)
                  (after R m.job_id m.tile_id m.info m.processing_time s)).size
                (after R m.job_id m.tile_id m.info m.processing_time s)).0
            ≡ entry k s
      untouched k e =
          mark_ready-other d m.job_id _ k _ e
          ∙ record-other R m.job_id m.tile_id m.info m.processing_time s k e

  process_message-Tracks :
      (d n j : ℕ) (m : ResultMessage) (ms : List ResultMessage) (s : Server)
      → Tracks d j n (deliveries j ms) s
      → Tracks d j n (deliveries j (m ∷ ms)) (process_message R d m s).0
  unfolding process_message
  process_message-Tracks d n j m ms s v = go (read_message m) refl
    where
      go :
          (r : Result Delivery)
          → read_message m ≡ r
          → Tracks d j n (deliveries j (m ∷ ms)) (process_message R d m s).0
      go (ok x) e =
          rw (e, process_message, deliveries) (deliver-Tracks d n j x (deliveries j ms) s v)
      go (raise x) e = rw (e, process_message, deliveries) v

  listen-Tracks :
      (d n j : ℕ) (rounds : List (Bool × Polled)) (ms : List ResultMessage) (s : Server)
      → Tracks d j n (deliveries j ms) s
      → Tracks d j n (deliveries j (heard rounds ms)) (listen R d rounds s)
  unfolding listen poll_once
  listen-Tracks d n j [] ms s v = v
  listen-Tracks d n j ((false, polled) ∷ rounds) ms s v = listen-Tracks d n j rounds ms s v
  listen-Tracks d n j ((true, nothing) ∷ rounds) ms s v = listen-Tracks d n j rounds ms s v
  listen-Tracks d n j ((true, consumer_error) ∷ rounds) ms s v = listen-Tracks d n j rounds ms s v
  listen-Tracks d n j ((true, invalid_json) ∷ rounds) ms s v = listen-Tracks d n j rounds ms s v
  listen-Tracks d n j ((true, message m) ∷ rounds) ms s v =
      listen-Tracks d n j rounds (m ∷ ms) _ (process_message-Tracks d n j m ms s v)

  -- A job is created with a positive number of expected tiles, under an id that no key uses. Then
  -- the listener runs over any terms of leadership, while nothing else writes the job, and any
  -- messages are polled, in any order, with duplicates, errors, of this job and of others,
  -- readable or not. Afterwards the server holds exactly the tiles that a readable message of the
  -- job named and counts each once, and the status of the job is 'ready_for_reconstruction' if at
  -- least the expected number of distinct tiles was named, and 'processing' if not.
  pub listen-create_job :
      (d j now : ℕ) (new : NewJob) (rounds : List (Bool × Polled)) (s : Server)
      → 0 < new.expected_tiles
      → entry (job j) s ≡ missing
      → entry (tiles j) s ≡ missing
      → Tracks d j new.expected_tiles
          (deliveries j (heard rounds []))
          (listen R d rounds (create_job R j new now s))
  listen-create_job d j now new rounds s pos no_job no_tiles =
      listen-Tracks d new.expected_tiles j rounds [] _ (record {
        received = λ t. rw (create_job-tiles, no_tiles) refl;
        counted = rw (create_job-tiles, no_tiles) refl;
        held =
            let e : status_for new.expected_tiles 0 ≡ Status.processing = ground (arith, pos) in
            rw e (create_job-HoldsJob R d j now new s no_job);
      })
    where
      create_job-tiles : entry (tiles j) (create_job R j new now s) ≡ entry (tiles j) s
      create_job-tiles = entry-create_job R j now new s (tiles j) refl
