-- ===== src/Worker.antt =====
-- worker/main.py: one OpenCV worker, from the task that it polls to the offset that it commits.
pub mod Retries
pub mod Ledger
use Prim.Native.String.{String}
use dip.Prelude.{
  ℕ, zero, suc, ◌+◌, ◌*◌, ◌^◌, List, [], ◌∷◌, Option, none, some, Bool, true, false, not, ◌&&◌, ltb,
  Error, Result, ok, raise, key_error, ◌>>=◌, if◌then◌else◌,
}
use dip.Redis.{Operation, object_detection, opencv, BlobKey}
use dip.Tasks.{Task}
use dip.Results.{ResultMessage, required}

abbrev pub max_retries : ℕ
max_retries = 2

-- What is put on `tasks.dlq`: the task, and what `send_to_dlq` adds. The time is left out.
pub data Reason : Type 0 where
  retries_exhausted publish_failed : Reason

pub record DlqRecord : Type 0 where
  pub task : Task
  pub attempt : ℕ
  pub failed_by : String
  pub failure_reason : Reason

pub data Outgoing : Type 0 where
  result : ResultMessage → Outgoing
  dlq : DlqRecord → Outgoing

-- The Kafka client: whether `produce` raises, what `flush` returns behind it, whether the delivery
-- callback is given an error, and whether `commit` raises.
pub record Broker : Type 0 where
  pub produce : Outgoing → Result (Unit {0})
  pub still_queued : Outgoing → ℕ
  pub delivery_failed : Outgoing → Bool
  pub commit : Result (Unit {0})

-- `self.metrics`, the counters of the Prometheus client, the delays slept, and the messages that
-- `produce` took, the newest first.
pub record State : Type 0 where
  pub tasks_processed : ℕ
  pub tasks_failed : ℕ
  pub total_processing_time : ℕ
  pub success_total : ℕ
  pub failed_total : ℕ
  pub dlq_total : ℕ
  pub slept : List ℕ
  pub sent : List Outgoing

abbrev pub count_failed : State → State
count_failed s = record s { tasks_failed = s.tasks_failed + 1; failed_total = s.failed_total + 1 }

abbrev pub count_processed : ℕ → State → State
count_processed processing_time s = record s {
  tasks_processed = s.tasks_processed + 1;
  total_processing_time = s.total_processing_time + processing_time;
  success_total = s.success_total + 1;
}

abbrev pub result_message : String → Task → BlobKey → ℕ → ResultMessage
result_message worker_id task blob_key processing_time = record {
  job_id = some task.job_id;
  tile_id = some task.tile_id;
  result_blob_key = some blob_key;
  detections = none;
  worker_id = some worker_id;
  x = some task.x;
  y = some task.y;
  width = some task.width;
  height = some task.height;
  processing_time = some processing_time;
}

-- `publish_result`: an exception, a message still queued and a failed delivery are all `False`.
pub publish_result : Broker → ResultMessage → State → State × Bool
publish_result b m s = elim (b.produce (result m)) [
  | raise e ↦ (s, false)
  | ok _ ↦ (
    record s { sent = result m ∷ s.sent },
    (if ltb 0 (b.still_queued (result m)) then false else not (b.delivery_failed (result m))),
  )
]

-- `task.get('attempt', 1)`
abbrev pub attempt_of : Option ℕ → ℕ
attempt_of none = 1
attempt_of (some a) = a

abbrev pub dlq_record : String → Task → Reason → DlqRecord
dlq_record worker_id task reason = record {
  task = task;
  attempt = attempt_of task.attempt;
  failed_by = worker_id;
  failure_reason = reason;
}

-- `send_to_dlq`: what its `flush` returns is not read.
pub send_to_dlq : Broker → String → Task → Reason → State → State × Bool
send_to_dlq b worker_id task reason s = elim (b.produce (dlq (dlq_record worker_id task reason))) [
  | raise e ↦ (s, false)
  | ok _ ↦ (
    record s {
      sent = dlq (dlq_record worker_id task reason) ∷ s.sent;
      dlq_total = s.dlq_total + 1;
    },
    true,
  )
]

-- What `consumer.poll` returns. A task has the keys that the publishers give it.
pub data Polled : Type 0 where
  nothing consumer_error invalid_json : Polled
  message : Task → Polled

-- The offset is committed, or not; an exception in the handler of invalid JSON leaves the loop.
pub data Outcome : Type 0 where
  committed uncommitted crashed : Outcome

abbrev pub commit_outcome : Result (Unit {0}) → Outcome
commit_outcome (ok _) = committed
commit_outcome (raise e) = uncommitted

abbrev pub commit_in_handler : Result (Unit {0}) → Outcome
commit_in_handler (ok _) = committed
commit_in_handler (raise e) = crashed

-- The second half of the body of the loop, given what `process_tile` returned.
pub settle : Broker → String → Task → Option ResultMessage → State → State × Outcome
unfolding publish_result send_to_dlq
settle b worker_id task none s =
    ((send_to_dlq b worker_id task Reason.retries_exhausted s).0, commit_outcome b.commit)
settle b worker_id task (some m) s =
    let (s', success) = publish_result b m s in
    if success
    then (s', commit_outcome b.commit)
    else ((send_to_dlq b worker_id task Reason.publish_failed s').0, commit_outcome b.commit)

module _ (Bytes Image : Type 0) where
  -- What the code that is called on an attempt returns: the blob store, OpenCV and the clock.
  pub record Tools : Type 0 where
    pub get_tile : ℕ → BlobKey → Result Bytes
    pub decode_image : ℕ → Bytes → Result Image
    pub operation_map : String → Option (ℕ → Image → Result Image)
    pub encode_image : ℕ → Image → Result Bytes
    pub put_tile : ℕ → ℕ → ℕ → Bytes → Result BlobKey
    pub elapsed : ℕ → ℕ

  abbrev pub find_operation : Tools → Operation → Option (ℕ → Image → Result Image)
  find_operation tools object_detection = none
  find_operation tools (opencv name) = tools.operation_map name

  -- One attempt behind the test of the operation.
  abbrev pub process_once : Tools → (ℕ → Image → Result Image) → Task → ℕ → Result BlobKey
  process_once tools f task attempt = do
    bytes ← tools.get_tile attempt task.blob_key
    tile_image ← tools.decode_image attempt bytes
    processed_tile ← f attempt tile_image
    encoded ← tools.encode_image attempt processed_tile
    tools.put_tile attempt task.job_id task.tile_id encoded

  -- `for attempt in range(...)`, `rounds` of it left. The delay is in milliseconds.
  pub process_attempts :
      Tools
      → String
      → (ℕ → Image → Result Image)
      → Task
      → ℕ
      → ℕ
      → State
      → State × Option ResultMessage
  process_attempts tools worker_id f task zero attempt s = (s, none)
  process_attempts tools worker_id f task (suc rounds) attempt s =
      elim (process_once tools f task attempt) [
        | ok blob_key ↦ (
          count_processed (tools.elapsed attempt) s,
          some (result_message worker_id task blob_key (tools.elapsed attempt)),
        )
        | raise e ↦
            if ltb attempt max_retries
            then process_attempts tools worker_id f task rounds (attempt + 1)
                (record s { slept = 500 * 2 ^ attempt ∷ s.slept })
            else (count_failed s, none)
      ]

  -- The test of the operation is the same on each attempt; it fails on the first, or on none.
  pub process_tile : Tools → String → Task → Operation → State → State × Option ResultMessage
  unfolding process_attempts
  process_tile tools worker_id task operation s = elim (find_operation tools operation) [
    | none ↦ (count_failed s, none)
    | some f ↦ process_attempts tools worker_id f task (max_retries + 1) 0 s
  ]

  -- The body of the loop of `run`. A task with no operation raises KeyError in `process_tile`.
  pub handle : Tools → Broker → String → Polled → State → State × Outcome
  unfolding process_tile settle
  handle tools b worker_id nothing s = (s, uncommitted)
  handle tools b worker_id consumer_error s = (s, uncommitted)
  handle tools b worker_id invalid_json s = (s, commit_in_handler b.commit)
  handle tools b worker_id (message task) s = elim task.operation [
    | none ↦ (s, uncommitted)
    | some operation ↦
        let (s', found) = process_tile tools worker_id task operation s in
        settle b worker_id task found s'
  ]

  -- A round of the loop: whether the shutdown event is set before and after the poll, what the
  -- poll returns, and what the other code answers.
  pub record Round : Type 0 where
    pub stop_before : Bool
    pub stop_after : Bool
    pub polled : Polled
    pub tools : Tools
    pub broker : Broker

  abbrev pub continue_after : Outcome → State → (State → State) → State
  continue_after crashed s rest = s
  continue_after _ s rest = rest s

  -- The loop of `run`.
  pub run : String → List Round → State → State
  unfolding handle
  run worker_id [] s = s
  run worker_id (r ∷ rs) s =
      let (s', outcome) = handle r.tools r.broker worker_id r.polled s in
      if r.stop_before
      then s
      else (if r.stop_after then s else continue_after outcome s' (λ s''. run worker_id rs s''))
