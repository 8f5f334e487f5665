-- ===== src/Results.antt =====
-- master/results_consumer.py and master/ml_results_consumer.py: what a result message does to a job.
pub mod History
pub mod Ml
use Prim.Native.String.{String}
use dip.Prelude.{
  ℕ, List, [], ◌∷◌, Option, none, some, Bool, true, false, ◌&&◌, leb, Result, ok, raise, key_error,
  ◌>>=◌, if◌then◌else◌,
}
use dip.Redis.{
  Redis, job, Status, Field, Value, BlobKey, Detection, Payload, result_blob_key, TileInfo, hset,
}
use dip.Jobstore.{Job, get_job, record_tile_result}

-- A decoded message. A key that a message may lack is an option.
pub record ResultMessage : Type 0 where
  pub job_id : Option ℕ
  pub tile_id : Option ℕ
  pub result_blob_key : Option BlobKey
  pub detections : Option (List Detection)
  pub worker_id : Option String
  pub x : Option ℕ
  pub y : Option ℕ
  pub width : Option ℕ
  pub height : Option ℕ
  pub processing_time : Option ℕ

-- `result['key']` raises KeyError, `result.get('key', default)` does not.
abbrev pub required {ℓ} : {A : Type ℓ} → Option A → Result A
required none = raise key_error
required (some a) = ok a

abbrev pub get_or {ℓ} : {A : Type ℓ} → Option A → A → A
get_or none default = default
get_or (some a) default = a

-- What a message says: the job, the tile, what to store, and the processing time.
pub record Delivery : Type 0 where
  pub job_id : ℕ
  pub tile_id : ℕ
  pub info : TileInfo
  pub processing_time : ℕ

abbrev pub tile_info_with : Payload → String → ResultMessage → TileInfo
tile_info_with payload worker_id m = record {
  payload = payload;
  worker_id = worker_id;
  x = get_or m.x 0;
  y = get_or m.y 0;
  width = get_or m.width 0;
  height = get_or m.height 0;
}

pub read_message : ResultMessage → Result Delivery
read_message m = do
  j ← required m.job_id
  t ← required m.tile_id
  blob_key ← required m.result_blob_key
  worker_id ← required m.worker_id
  ok (record {
    job_id = j;
    tile_id = t;
    info = tile_info_with (result_blob_key blob_key) worker_id m;
    processing_time = get_or m.processing_time 0;
  })

abbrev pub is_processing : Status → Bool
is_processing Status.processing = true
is_processing _ = false

-- The test of the completion branch.
abbrev pub is_complete : Job → ℕ → Bool
is_complete found distinct_count =
    is_processing found.status && leb found.expected_tiles distinct_count

-- What `consumer.poll` returns: nothing, an error, a value that is no JSON, or a message.
pub data Polled : Type 0 where
  nothing : Polled
  consumer_error : Polled
  invalid_json : Polled
  message : ResultMessage → Polled

abbrev pub succeeded : Result (Unit {0}) → Bool
succeeded (ok _) = true
succeeded (raise _) = false

module _ (R : Redis) where
  open R use {Server, command}

  -- The part of `_process_message` behind `record_tile_result`. The write has no EXPIRE behind it.
  pub mark_ready : ℕ → ℕ → ℕ → Server → Server × Result (Unit {0})
  mark_ready default_tile_size j distinct_count s = elim (get_job R default_tile_size j s) [
    | raise e ↦ (s, raise e)
    | ok none ↦ (s, ok tt)
    | ok (some found) ↦ (
      if is_complete found distinct_count
          then command (job j)
              (hset ((Field.status, Value.status Status.ready_for_reconstruction) ∷ [])) s
          else s,
      ok tt,
    )
  ]

  pub deliver : ℕ → Delivery → Server → Server × Result (Unit {0})
  unfolding mark_ready
  deliver default_tile_size m s =
      let (s', distinct_count) =
        record_tile_result R m.job_id m.tile_id m.info m.processing_time s in
      mark_ready default_tile_size m.job_id distinct_count s'

  -- The state after `_process_message`, and its exception if it raises one.
  pub process_message : ℕ → ResultMessage → Server → Server × Result (Unit {0})
  unfolding deliver
  process_message default_tile_size m s = elim (read_message m) [
    | raise e ↦ (s, raise e)
    | ok d ↦ deliver default_tile_size d s
  ]

  -- One round of the inner loop of `listen_for_results`: the state, and whether the offset of the
  -- message is committed. An exception is logged and the offset is not committed.
  pub poll_once : ℕ → Polled → Server → Server × Bool
  unfolding process_message
  poll_once default_tile_size nothing s = (s, false)
  poll_once default_tile_size consumer_error s = (s, false)
  poll_once default_tile_size invalid_json s = (s, false)
  poll_once default_tile_size (message m) s =
      let (s', outcome) = process_message default_tile_size m s in (s', succeeded outcome)

  -- Both loops of `listen_for_results`: each round has the answer of `is_leader` and what is polled.
  -- A round of a process that is not the leader polls nothing; the next one asks again.
  pub listen : ℕ → List (Bool × Polled) → Server → Server
  listen default_tile_size [] s = s
  listen default_tile_size ((false, polled) ∷ rounds) s = listen default_tile_size rounds s
  listen default_tile_size ((true, polled) ∷ rounds) s =
      listen default_tile_size rounds (poll_once default_tile_size polled s).0
