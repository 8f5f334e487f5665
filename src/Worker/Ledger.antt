-- ===== src/Worker/Ledger.antt =====
-- What becomes of each task that worker/main.py polls, and what its counters say.
use Prim.Native.String.{String}
use dip.Prelude.{
  ℕ, ◌+◌, ◌*◌, ◌^◌, ◌≡◌, refl, List, ◌∷◌, Option, none, some, true, false, ltb, Result, ok, raise,
  Error, zero, suc, arith, inl, inr, ◌⊎◌, Bool-cases, Option-cases,
}
use dip.Redis.{Operation, BlobKey}
use dip.Tasks.{Task}
use dip.Results.{ResultMessage}
use dip.Worker.{
  max_retries, Reason, DlqRecord, dlq_record, Outgoing, result, dlq, Broker, State, publish_result,
  send_to_dlq, message, commit_outcome, settle, Tools, find_operation, process_once,
  process_attempts, process_tile, handle,
}

-- Kafka holds the message: it was taken, nothing stayed queued, and no error was reported.
abbrev pub IsDelivered : Broker → ResultMessage → Type 0
IsDelivered b m =
    (b.produce (result m) ≡ ok tt)
    × (b.still_queued (result m) ≡ 0)
    × (b.delivery_failed (result m) ≡ false)

-- The message is the result of the task for one of the stored blobs: of its job and its tile, with
-- its place and its size, and with the key under which an attempt stored the tile.
pub record IsResultOf (IsStored : BlobKey → Type 0) (task : Task) (m : ResultMessage) : Type 0 where
  pub job : m.job_id ≡ some task.job_id
  pub tile : m.tile_id ≡ some task.tile_id
  pub place : (m.x ≡ some task.x) × (m.y ≡ some task.y)
  pub size : (m.width ≡ some task.width) × (m.height ≡ some task.height)
  pub blob : (k : BlobKey) × (m.result_blob_key ≡ some k) × IsStored k

-- The messages taken before the record for the DLQ: none, or the result whose delivery failed.
abbrev pub Before : (BlobKey → Type 0) → Task → List Outgoing → List Outgoing → Type 0
Before IsStored task old now =
    (now ≡ old) ⊎ ((m : ResultMessage) × IsResultOf IsStored task m × (now ≡ result m ∷ old))

-- A task ends with its result in Kafka, with a record on the way to the DLQ, or with neither,
-- because the producer took no record.
pub data Fate (IsStored : BlobKey → Type 0) (b : Broker) (task : Task) (old : List Outgoing)
    : List Outgoing → Type 0 where
  delivered :
      (m : ResultMessage)
      → IsResultOf IsStored task m
      → IsDelivered b m
      → Fate IsStored b task old (result m ∷ old)
  parked :
      (now : List Outgoing) (r : DlqRecord)
      → r.task ≡ task
      → Before IsStored task old now
      → Fate IsStored b task old (dlq r ∷ now)
  lost :
      (now : List Outgoing) (r : DlqRecord) (e : Error)
      → b.produce (dlq r) ≡ raise e
      → Before IsStored task old now
      → Fate IsStored b task old now

send_to_dlq-Fate :
    (IsStored : BlobKey → Type 0) (b : Broker) (worker_id : String) (task : Task) (reason : Reason)
    (old : List Outgoing) (s : State)
    → Before IsStored task old s.sent
    → Fate IsStored b task old (send_to_dlq b worker_id task reason s).0.sent
unfolding send_to_dlq
send_to_dlq-Fate IsStored b worker_id task reason old s h = go _ refl
  where
    r : DlqRecord
    r = dlq_record worker_id task reason

    go :
        (x : Result (Unit {0}))
        → b.produce (dlq r) ≡ x
        → Fate IsStored b task old (send_to_dlq b worker_id task reason s).0.sent
    go (ok _) e = rw (e, send_to_dlq, r) (parked s.sent r refl h)
    go (raise x) e = rw (e, send_to_dlq, r) (lost s.sent r x e h)

publish_result_cases :
    (IsStored : BlobKey → Type 0) (b : Broker) (task : Task) (m : ResultMessage) (s : State)
    → IsResultOf IsStored task m
    → (((publish_result b m s).1 ≡ true)
        × ((publish_result b m s).0.sent ≡ result m ∷ s.sent)
        × IsDelivered b m)
      ⊎ (((publish_result b m s).1 ≡ false)
          × Before IsStored task s.sent (publish_result b m s).0.sent)
unfolding publish_result
publish_result_cases IsStored b task m s own = go _ refl
  where
    go :
        (x : Result (Unit {0}))
        → b.produce (result m) ≡ x
        → (((publish_result b m s).1 ≡ true)
            × ((publish_result b m s).0.sent ≡ result m ∷ s.sent)
            × IsDelivered b m)
          ⊎ (((publish_result b m s).1 ≡ false)
              × Before IsStored task s.sent (publish_result b m s).0.sent)
    go (raise x) e = rw (e, publish_result) (inr (refl, inl refl))
    go (ok _) e = elim (Bool-cases (ltb 0 (b.still_queued (result m)))) [
      | inl stuck ↦ rw (e, publish_result, stuck) (inr (refl, inr (m, own, refl)))
      | inr flushed ↦ elim (Bool-cases (b.delivery_failed (result m))) [
        | inl failed ↦ rw (e, publish_result, flushed, failed) (inr (refl, inr (m, own, refl)))
        | inr fine ↦
            rw (e, publish_result, flushed, fine)
              (inl (refl, refl, (refl, ground (arith, flushed), refl)))
      ]
    ]

-- What `process_tile` found, if anything, is the result of the task.
abbrev Owns : (BlobKey → Type 0) → Task → Option ResultMessage → Type 0
Owns IsStored task none = Unit {0}
Owns IsStored task (some m) = IsResultOf IsStored task m

settle-Fate :
    (IsStored : BlobKey → Type 0) (b : Broker) (worker_id : String) (task : Task)
    (found : Option ResultMessage) (s : State)
    → Owns IsStored task found
    → Fate IsStored b task s.sent (settle b worker_id task found s).0.sent
unfolding settle
settle-Fate IsStored b worker_id task none s own =
    send_to_dlq-Fate IsStored b worker_id task Reason.retries_exhausted s.sent s (inl refl)
settle-Fate IsStored b worker_id task (some m) s own =
    elim (publish_result_cases IsStored b task m s own) [
      | inl h ↦ rw (h.0, settle, h.1) (delivered m own h.2)
      | inr h ↦
          rw (h.0, settle)
            (send_to_dlq-Fate IsStored b worker_id task Reason.publish_failed s.sent
              (publish_result b m s).0 h.1)
    ]

settle-outcome :
    (b : Broker) (worker_id : String) (task : Task) (found : Option ResultMessage) (s : State)
    → (settle b worker_id task found s).1 ≡ commit_outcome b.commit
unfolding settle
settle-outcome b worker_id task none s = refl
settle-outcome b worker_id task (some m) s = elim (Bool-cases (publish_result b m s).1) [
  | inl e ↦ rw (e, settle) refl
  | inr e ↦ rw (e, settle) refl
]

module _ (Bytes Image : Type 0) where
  process_attempts-sent :
      (tools : Tools Bytes Image) (worker_id : String) (f : ℕ → Image → Result Image) (task : Task)
      (rounds attempt : ℕ) (s : State)
      → (process_attempts Bytes Image tools worker_id f task rounds attempt s).0.sent ≡ s.sent
  unfolding process_attempts
  process_attempts-sent tools worker_id f task zero attempt s = refl
  process_attempts-sent tools worker_id f task (suc rounds) attempt s = go _ refl (
      process_attempts-sent tools worker_id f task rounds (attempt + 1)
        (record s { slept = 500 * 2 ^ attempt ∷ s.slept }))
    where
      go :
          (x : Result BlobKey)
          → process_once Bytes Image tools f task attempt ≡ x
          → (process_attempts Bytes Image tools worker_id f task rounds
              (attempt + 1)
              (record s { slept = 500 * 2 ^ attempt ∷ s.slept })).0.sent
            ≡ s.sent
          → (process_attempts Bytes Image tools worker_id f task (suc rounds) attempt s).0.sent
            ≡ s.sent
      go (ok k) e again = rw (e, process_attempts) refl
      go (raise x) e again = elim (Bool-cases (ltb attempt max_retries)) [
        | inl more ↦ rw (e, process_attempts, more) again
        | inr last ↦ rw (e, process_attempts, last) refl
      ]

  -- An attempt at the task stored the tile under the key.
  abbrev pub Stored : Tools Bytes Image → Operation → Task → BlobKey → Type 0
  Stored tools operation task k =
      (f : ℕ → Image → Result Image) × (find_operation Bytes Image tools operation ≡ some f)
      × ((attempt : ℕ) × (process_once Bytes Image tools f task attempt ≡ ok k))

  process_attempts-Owns :
      (tools : Tools Bytes Image) (worker_id : String) (operation : Operation)
      (f : ℕ → Image → Result Image) (task : Task) (rounds attempt : ℕ) (s : State)
      → find_operation Bytes Image tools operation ≡ some f
      → Owns
          (Stored tools operation task)
          task
          (process_attempts Bytes Image tools worker_id f task rounds attempt s).1
  unfolding process_attempts
  process_attempts-Owns tools worker_id operation f task zero attempt s known = tt
  process_attempts-Owns tools worker_id operation f task (suc rounds) attempt s known = go _ refl (
      process_attempts-Owns tools worker_id operation f task rounds (attempt + 1)
        (record s { slept = 500 * 2 ^ attempt ∷ s.slept }) known)
    where
      go :
          (x : Result BlobKey)
          → process_once Bytes Image tools f task attempt ≡ x
          → Owns
              (Stored tools operation task)
              task
              (process_attempts Bytes Image tools worker_id f task rounds
                (attempt + 1)
                (record s { slept = 500 * 2 ^ attempt ∷ s.slept })).1
          → Owns
              (Stored tools operation task)
              task
              (process_attempts Bytes Image tools worker_id f task (suc rounds) attempt s).1
      go (ok k) e again =
          rw (e, process_attempts)
            (record {
              job = refl;
              tile = refl;
              place = (refl, refl);
              size = (refl, refl);
              blob = (k, refl, (f, known, (attempt, e)));
            })
      go (raise x) e again = elim (Bool-cases (ltb attempt max_retries)) [
        | inl more ↦ rw (e, process_attempts, more) again
        | inr last ↦ rw (e, process_attempts, last) tt
      ]

  process_tile-Owns :
      (tools : Tools Bytes Image) (worker_id : String) (task : Task) (operation : Operation)
      (s : State)
      → Owns
          (Stored tools operation task)
          task
          (process_tile Bytes Image tools worker_id task operation s).1
  unfolding process_tile
  process_tile-Owns tools worker_id task operation s =
      elim (Option-cases (find_operation Bytes Image tools operation)) [
        | inl e ↦ rw (e, process_tile) tt
        | inr found ↦
            rw (found.1, process_tile)
              (process_attempts-Owns tools worker_id operation found.0 task 3 0 s found.1)
      ]

  process_tile-sent :
      (tools : Tools Bytes Image) (worker_id : String) (task : Task) (operation : Operation)
      (s : State)
      → (process_tile Bytes Image tools worker_id task operation s).0.sent ≡ s.sent
  unfolding process_tile
  process_tile-sent tools worker_id task operation s =
      elim (Option-cases (find_operation Bytes Image tools operation)) [
        | inl e ↦ rw (e, process_tile) refl
        | inr found ↦
            rw (found.1, process_tile) (process_attempts-sent tools worker_id found.0 task 3 0 s)
      ]

  -- A task that names an operation, known or not, is settled whatever the other code answers: its
  -- offset is committed unless the commit itself raises, and the task's own result, for a blob
  -- that an attempt stored, is in Kafka, or a record of the task went to the DLQ's producer, or
  -- that producer raised and the task is lost.
  pub handle-Fate :
      (tools : Tools Bytes Image) (b : Broker) (worker_id : String) (task : Task)
      (operation : Operation) (s : State)
      → task.operation ≡ some operation
      → let (s', outcome) = handle Bytes Image tools b worker_id (message task) s in
        (outcome ≡ commit_outcome b.commit)
        × Fate (Stored tools operation task) b task s.sent s'.sent
  unfolding handle
  handle-Fate tools b worker_id task operation s named =
      let (s', found) = process_tile Bytes Image tools worker_id task operation s in
      let fate : Fate (Stored tools operation task) b task s'.sent
          (settle b worker_id task found s').0.sent =
        settle-Fate (Stored tools operation task) b worker_id task found s'
          (process_tile-Owns tools worker_id task operation s) in
      simp (named, handle)
        (
          settle-outcome b worker_id task found s',
          rw (process_tile-sent tools worker_id task operation s) at fate,
        )
