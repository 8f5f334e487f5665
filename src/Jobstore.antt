-- ===== src/Jobstore.antt =====
-- app/jobstore.py: the state of a job in Redis, over any server.
pub mod Record
pub mod View
pub mod Frame
pub mod Finish
pub mod Tests
use Prim.Native.String.{String}
use dip.Prelude.{
  ℕ, ◌+◌, ◌-◌, ◌≡◌, List, [], ◌∷◌, Option, none, some, Bool, true, false, ◌&&◌, ◌==◌, Result, ok,
  raise, value_error, ◌>>=◌, if◌then◌else◌,
}
use dip.Redis.{
  Redis, Key, job, tiles, latencies, abandoned, attempts, Field, Status, Operation, TileInfo, Value,
  number, text, tile_info, Mapping, hset, hincrby, rpush, incr, sadd, expire, delete, opencv,
}

abbrev pub job_ttl_seconds : ℕ
job_ttl_seconds = 86_400

-- The result of `get_job`.
pub record Job : Type 0 where
  pub job_id : ℕ
  pub original_filename : String
  pub operation : Operation
  pub original_width : ℕ
  pub original_height : ℕ
  pub tile_size : ℕ
  pub timestamp : ℕ
  pub processing_start : ℕ
  pub status : Status
  pub expected_tiles : ℕ
  pub active_workers : ℕ
  pub results_count : ℕ
  pub failed_tasks : ℕ
  pub completion_time : Option ℕ
  pub result_path : Option String

-- `int(raw.get(field, default))` and `float(...)`: a string that is no number raises ValueError.
abbrev pub int_or : ℕ → Option Value → Result ℕ
int_or default none = ok default
int_or default (some (number n)) = ok n
int_or default (some _) = raise value_error

abbrev pub text_or : String → Option Value → String
text_or default (some (text t)) = t
text_or default _ = default

abbrev pub status_or : Status → Option Value → Status
status_or default (some (Value.status st)) = st
status_or default _ = default

-- The default 'unknown' is no operation that the program knows.
abbrev pub operation_or : Operation → Option Value → Operation
operation_or default (some (Value.operation o)) = o
operation_or default _ = default

abbrev pub optional_int : Option Value → Result (Option ℕ)
optional_int none = ok none
optional_int (some (number n)) = ok (some n)
optional_int (some _) = raise value_error

abbrev pub optional_text : Option Value → Option String
optional_text (some (text t)) = some t
optional_text _ = none

-- What `create_job` is given, `now` being the clock.
pub record NewJob : Type 0 where
  pub original_filename : String
  pub operation : Operation
  pub original_width : ℕ
  pub original_height : ℕ
  pub expected_tiles : ℕ
  pub active_workers : ℕ
  pub tile_size : ℕ

abbrev pub new_job_mapping : ℕ → NewJob → ℕ → Mapping
new_job_mapping j n now =
    (Field.job_id, number j)
    ∷ (Field.original_filename, text n.original_filename)
    ∷ (Field.operation, Value.operation n.operation)
    ∷ (Field.original_width, number n.original_width)
    ∷ (Field.original_height, number n.original_height)
    ∷ (Field.tile_size, number n.tile_size)
    ∷ (Field.timestamp, number now)
    ∷ (Field.processing_start, number now)
    ∷ (Field.status, Value.status Status.processing)
    ∷ (Field.expected_tiles, number n.expected_tiles)
    ∷ (Field.active_workers, number n.active_workers)
    ∷ (Field.results_count, number 0)
    ∷ (Field.failed_tasks, number 0)
    ∷ []

-- The body of `get_job` behind `raw`; `default_tile_size` is the configured TILE_SIZE.
pub parse_job : ℕ → ℕ → (Field → Option Value) → Result Job
parse_job default_tile_size j raw = do
  original_width ← int_or 0 (raw Field.original_width)
  original_height ← int_or 0 (raw Field.original_height)
  tile_size ← int_or default_tile_size (raw Field.tile_size)
  timestamp ← int_or 0 (raw Field.timestamp)
  processing_start ← int_or 0 (raw Field.processing_start)
  expected_tiles ← int_or 0 (raw Field.expected_tiles)
  active_workers ← int_or 0 (raw Field.active_workers)
  results_count ← int_or 0 (raw Field.results_count)
  failed_tasks ← int_or 0 (raw Field.failed_tasks)
  completion_time ← optional_int (raw Field.completion_time)
  ok (record {
    job_id = j;
    original_filename = text_or "unknown" (raw Field.original_filename);
    operation = operation_or (opencv "unknown") (raw Field.operation);
    original_width = original_width;
    original_height = original_height;
    tile_size = tile_size;
    timestamp = timestamp;
    processing_start = processing_start;
    status = status_or Status.unknown (raw Field.status);
    expected_tiles = expected_tiles;
    active_workers = active_workers;
    results_count = results_count;
    failed_tasks = failed_tasks;
    completion_time = completion_time;
    result_path = optional_text (raw Field.result_path);
  })

-- json.loads of the fields of the tile hash; nothing else is ever stored there.
abbrev pub tile_info_of : Option Value → Option TileInfo
tile_info_of (some (tile_info i)) = some i
tile_info_of _ = none

module _ (R : Redis) where
  open R use {Server, entry, command, reply, scan}

  pub create_job : ℕ → NewJob → ℕ → Server → Server
  create_job j n now s =
      command (job j) (expire job_ttl_seconds) (command (job j) (hset (new_job_mapping j n now)) s)

  pub get_job : ℕ → ℕ → Server → Result (Option Job)
  unfolding parse_job
  get_job default_tile_size j s =
      if (entry (job j) s).size == 0
      then ok none
      else (parse_job default_tile_size j (entry (job j) s).fields >>= λ found. ok (some found))

  pub mark_job_completed : ℕ → String → ℕ → Server → Server
  mark_job_completed j result_path now s = command (job j) (expire job_ttl_seconds) (
      command (job j)
        (hset (
          (Field.status, Value.status Status.completed)
          ∷ (Field.result_path, text result_path)
          ∷ (Field.completion_time, number now)
          ∷ []))
        s)

  -- The branch of a first delivery.
  pub count_new_tile : ℕ → ℕ → Server → Server
  count_new_tile j processing_time s = command (job j) (expire job_ttl_seconds) (
      command (job j) (hincrby Field.results_count 1) (
        command (latencies j) (expire job_ttl_seconds)
          (command (latencies j) (rpush (number processing_time)) s)))

  -- The state after the call, and the distinct count that it returns.
  pub record_tile_result : ℕ → ℕ → TileInfo → ℕ → Server → Server × ℕ
  unfolding count_new_tile
  record_tile_result j t info processing_time s =
      let store = hset ((Field.tile t, tile_info info) ∷ []) in
      let is_new_tile = reply (tiles j) store s in
      let stored = command (tiles j) (expire job_ttl_seconds) (command (tiles j) store s) in
      let after = if is_new_tile == 0 then stored else count_new_tile j processing_time stored in
      (after, (entry (tiles j) after).size)

  pub set_job_status : ℕ → Status → Server → Server
  set_job_status j st s =
      command (job j) (expire job_ttl_seconds)
        (command (job j) (hset ((Field.status, Value.status st) ∷ [])) s)

  -- The dictionary of the tiles that have arrived.
  abbrev pub get_tile_results : ℕ → Server → ℕ → Option TileInfo
  get_tile_results j s t = tile_info_of ((entry (tiles j) s).fields (Field.tile t))

  abbrev pub count_tile_results : ℕ → Server → ℕ
  count_tile_results j s = (entry (tiles j) s).size

  -- Latencies are milliseconds already.
  abbrev pub get_tile_latencies_ms : ℕ → Server → List Value
  get_tile_latencies_ms j s = (entry (latencies j) s).items

  abbrev pub scan_job_ids : Server → List ℕ
  scan_job_ids s = scan s

  pub incr_tile_attempts : ℕ → ℕ → Server → Server × ℕ
  incr_tile_attempts j t s = (
    command (attempts j t) (expire job_ttl_seconds) (command (attempts j t) incr s),
    reply (attempts j t) incr s,
  )

  pub add_abandoned_tile : ℕ → ℕ → Server → Server
  add_abandoned_tile j t s =
      command (abandoned j) (expire job_ttl_seconds) (command (abandoned j) (sadd t) s)

  abbrev pub get_abandoned_tiles : ℕ → Server → ℕ → Bool
  get_abandoned_tiles j s t = (entry (abandoned j) s).members t

  -- `float(raw) if raw else 0.0`
  pub get_last_reap_time : ℕ → Server → Result ℕ
  get_last_reap_time j s = int_or 0 ((entry (job j) s).fields Field.last_reap_time)

  pub set_last_reap_time : ℕ → ℕ → Server → Server
  set_last_reap_time j when s =
      command (job j) (expire job_ttl_seconds)
        (command (job j) (hset ((Field.last_reap_time, number when) ∷ [])) s)

  -- The attempt counters that the scan of `job:{job_id}:tile:*:attempts` finds.
  pub delete_attempts : ℕ → List ℕ → Server → Server
  delete_attempts j [] s = s
  delete_attempts j (t ∷ ts) s = delete_attempts j ts (command (attempts j t) delete s)

  pub delete_job_tile_state : ℕ → List ℕ → Server → Server
  unfolding delete_attempts
  delete_job_tile_state j attempt_tiles s =
      delete_attempts j attempt_tiles
        (command (abandoned j) delete (command (latencies j) delete (command (tiles j) delete s)))
