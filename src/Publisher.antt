-- ===== src/Publisher.antt =====
-- master/publisher.py and master/ml_publisher.py: the tasks of a new job.
pub mod Accounts
pub mod Readable
use dip.Prelude.{
  ℕ, zero, suc, ◌+◌, ◌%◌, List, [], ◌∷◌, Option, none, some, Bool, true, false, ltb, ◌==◌, Error,
  Result, ok, raise, buffer_error, value_error, if◌then◌else◌, ◌>>=◌,
}
use dip.Imaging.{Geometry}
use dip.Redis.{Redis, job, Field, Operation, object_detection, BlobKey, BlobKind, hincrby}
use dip.Tasks.{Topic, tasks, ml_tasks, Task}
use dip.Reaper.{is_ml, topic_of}

-- `_stage_tile`: where the blob of a tile goes.
abbrev pub staged_key : ℕ → Operation → Geometry → BlobKey
staged_key j o g = record {
  job_id = j;
  kind = if is_ml o then BlobKind.ml_task else BlobKind.task;
  tile_id = g.tile_id;
}

-- The task; a first dispatch has no `attempt`.
abbrev pub task_of : ℕ → Operation → Geometry → BlobKey → Task
task_of j o g blob_key = record {
  job_id = j;
  tile_id = g.tile_id;
  blob_key = blob_key;
  x = g.x;
  y = g.y;
  width = g.width;
  height = g.height;
  operation = if is_ml o then none else some o;
  attempt = none;
}

-- What the other code answers: whether the encoding and the upload raise, whether `produce` raises,
-- and how many failed deliveries the client reports in the calls of `poll` and `flush` that follow
-- a tile, and in the last `flush`.
pub record Outside : Type 0 where
  pub put_tile : BlobKey → Result (Unit {0})
  pub produce : Topic → Task → Result (Unit {0})
  pub failed_reports : Geometry → ℕ
  pub last_reports : ℕ

abbrev pub is_buffer_error : Error → Bool
is_buffer_error buffer_error = true
is_buffer_error _ = false

module _ (R : Redis) where
  open R use {Server, command}

  -- `_record_publish_failure`
  pub record_publish_failure : ℕ → Server → Server
  record_publish_failure j s = command (job j) (hincrby Field.failed_tasks 1) s

  -- `delivery_callback`, for each failed delivery that is reported.
  pub delivery_failures : ℕ → ℕ → Server → Server
  delivery_failures j zero s = s
  delivery_failures j (suc n) s =
      delivery_failures j n (command (job j) (hincrby Field.failed_tasks 1) s)

  -- The server, the tasks that were produced (the newest first), and the two counts.
  pub record Publishing : Type 0 where
    pub server : Server
    pub sent : List Task
    pub published_count : ℕ
    pub failed_count : ℕ

  abbrev pub count_failure : ℕ → Publishing → Publishing
  count_failure j w = record w {
    server = record_publish_failure j w.server;
    failed_count = w.failed_count + 1;
  }

  -- Behind a `produce` that was taken: callbacks run, and `published_count % batch_size` raises on
  -- the batch size 0, after the count.
  pub after_produce : ℕ → ℕ → ℕ → Task → Publishing → Publishing
  unfolding record_publish_failure delivery_failures
  after_produce j batch_size reports task w =
      let w' = record w {
        server = delivery_failures j reports w.server;
        sent = task ∷ w.sent;
        published_count = w.published_count + 1;
      } in
      if batch_size == 0 then count_failure j w' else w'

  -- Behind a `produce` that raised: BufferError makes the client flush, and so report.
  pub after_failure : ℕ → ℕ → Bool → Publishing → Publishing
  unfolding record_publish_failure delivery_failures
  after_failure j reports flushes w =
      count_failure j
        (if flushes then (record w { server = delivery_failures j reports w.server }) else w)

  -- The body of the loop over the staged tiles.
  pub publish_tile : Outside → ℕ → Operation → ℕ → Geometry → Publishing → Publishing
  unfolding after_produce after_failure
  publish_tile out j o batch_size g w =
      let task = task_of j o g (staged_key j o g) in
      let reports = out.failed_reports g in
      elim (out.put_tile (staged_key j o g) >>= λ _. out.produce (topic_of o) task) [
        | ok _ ↦ after_produce j batch_size reports task w
        | raise e ↦ after_failure j reports (is_buffer_error e) w
      ]

  -- The tiles come in the order in which their staging ends.
  pub publish_all : Outside → ℕ → Operation → ℕ → List Geometry → Publishing → Publishing
  unfolding publish_tile
  publish_all out j o batch_size [] w = w
  publish_all out j o batch_size (g ∷ gs) w =
      publish_all out j o batch_size gs (publish_tile out j o batch_size g w)

  abbrev pub nothing_published : Server → Publishing
  nothing_published s = record { server = s; sent = []; published_count = 0; failed_count = 0 }

  -- The last `flush`, and what is returned.
  pub publish_tile_tasks : Outside → ℕ → List Geometry → Operation → ℕ → Server → Publishing × Bool
  unfolding publish_all
  publish_tile_tasks out j tiles o batch_size s =
      let w = publish_all out j o batch_size tiles (nothing_published s) in
      (record w { server = delivery_failures j out.last_reports w.server }, ltb 0 w.published_count)

  pub publish_ml_tasks : Outside → ℕ → List Geometry → ℕ → Server → Publishing × Bool
  unfolding publish_all
  publish_ml_tasks out j tiles batch_size s =
      let w = publish_all out j object_detection batch_size tiles (nothing_published s) in
      (record w { server = delivery_failures j out.last_reports w.server }, ltb 0 w.published_count)
