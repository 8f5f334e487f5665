-- ===== src/Inference.antt =====
-- inference/main.py: the poller and the batcher of the inference service, and their two queues.
pub mod Crops
pub mod Batch
pub mod Queue
use Prim.Native.String.{String}
use dip.Prelude.{
  ℕ, ◌+◌, List, [], ◌∷◌, ◌++◌, Option, none, some, Bool, true, false, not, ◌&&◌, ltb, leb, ◌==◌,
  Error, Result, ok, raise, buffer_error, if◌then◌else◌, length, ◌>>=◌, map, ℤ, pos,
}
use dip.Redis.{BlobKey, Detection}
use dip.Inference.Crops.{whole_of, max_z, min_z, label_results}
use dip.Tasks.{Task}
use dip.Results.{ResultMessage}

-- INFERENCE_BATCH_SIZE, INFERENCE_BATCH_TIMEOUT_MS, INFERENCE_MAX_QUEUE, INFERENCE_RESUME_QUEUE.
pub record Config : Type 0 where
  pub batch_size : ℕ
  pub batch_timeout_ms : ℕ
  pub max_queue : ℕ
  pub resume_queue : ℕ

-- A task with the Kafka message that brought it, which stands as its number.
abbrev pub Item : Type 0
Item = Task × ℕ

-- The two queues, the pause, the batch that is being collected with its deadline, the messages that
-- were committed and the results that `produce` took, both the newest first.
pub record Service : Type 0 where
  pub pending : List Item
  pub to_commit : List ℕ
  pub paused : Bool
  pub batch : List Item
  pub deadline : Option ℕ
  pub committed : List ℕ
  pub published : List ResultMessage

-- What `consumer.poll` returns; invalid JSON comes with its message.
pub data Polled : Type 0 where
  nothing consumer_error : Polled
  invalid_json : ℕ → Polled
  message : Task → ℕ → Polled

-- A commit that raises is logged, and its message is dropped from the queue all the same.
abbrev pub commit_all : (ℕ → Bool) → List ℕ → List ℕ → List ℕ
commit_all commit_raises [] committed = committed
commit_all commit_raises (m ∷ ms) committed =
    commit_all commit_raises ms (if commit_raises m then committed else m ∷ committed)

pub drain_commits : (ℕ → Bool) → Service → Service
drain_commits commit_raises s = record s {
  to_commit = [];
  committed = commit_all commit_raises s.to_commit s.committed;
}

pub apply_backpressure : Config → Service → Service
apply_backpressure c s =
    let qsize = length s.pending in
    if not s.paused && leb c.max_queue qsize
    then (record s { paused = true })
    else (if s.paused && leb qsize c.resume_queue then (record s { paused = false }) else s)

pub receive : (ℕ → Bool) → Polled → Service → Service
receive commit_raises nothing s = s
receive commit_raises consumer_error s = s
receive commit_raises (invalid_json m) s = record s {
  committed = if commit_raises m then s.committed else m ∷ s.committed;
}
receive commit_raises (message task m) s = record s { pending = s.pending ++ (task, m) ∷ [] }

-- An iteration of `poll_loop`. What is polled depends on whether the consumer is paused then.
pub poll_once : Config → (ℕ → Bool) → (Bool → Polled) → Service → Service
unfolding drain_commits apply_backpressure receive
poll_once c commit_raises poll s =
    let s' = apply_backpressure c (drain_commits commit_raises s) in
    receive commit_raises (poll s'.paused) s'

-- `self.pending.get`: an empty queue is waited for. The item makes the deadline the given one.
pub take : ℕ → Service → Service
take deadline s = elim s.pending [
  | [] ↦ s
  | item ∷ items ↦ record s {
    pending = items;
    batch = s.batch ++ item ∷ [];
    deadline = some deadline;
  }
]

-- An iteration of `_collect_batch` at a time; `none` is the end of the loop. The first item sets
-- the deadline, and a `get` that reaches the deadline ends the loop.
pub collect_once : Config → ℕ → Bool → Service → Option Service
unfolding take
collect_once c now is_shutdown s =
    if ltb (length s.batch) c.batch_size && not is_shutdown
    then elim s.deadline [
      | none ↦ some (take (now + c.batch_timeout_ms) s)
      | some d ↦ if leb d now then none else some (take d s)
    ]
    else none

module _ (Image : Type 0) where
  -- `image[y1:y2, x1:x2]`, with the bounds as the slice gets them.
  pub record Crop : Type 0 where
    pub image : Image
    pub x1 : ℤ
    pub y1 : ℤ
    pub x2 : ℤ
    pub y2 : ℤ

  -- The blob store with OpenCV, the shape of an image (its width and its height), the two models, and
  -- the producer: what `produce` raises for a result and for its repetition, and what the `flush`
  -- returns.
  pub record Outside : Type 0 where
    pub fetch : BlobKey → Result Image
    pub shape : Image → ℕ × ℕ
    pub detect : List Image → Result (List (List Detection))
    pub classify : List Crop → Result (List (String × ℕ))
    pub produce : ResultMessage → Result (Unit {0})
    pub produce_again : ResultMessage → Result (Unit {0})
    pub still_queued : ℕ
    pub per_tile_time : ℕ

  abbrev pub fetched : Outside → Task → Option Image
  fetched out task = elim (out.fetch task.blob_key) [ ok image ↦ some image | raise e ↦ none ]

  abbrev pub valid_images : List (Option Image) → List Image
  valid_images [] = []
  valid_images (none ∷ images) = valid_images images
  valid_images (some image ∷ images) = image ∷ valid_images images

  -- `detect_results`: the answers of the model, in the places of the images that there are.
  abbrev pub spread : List (Option Image) → List (List Detection) → List (Option (List Detection))
  spread [] ds = []
  spread (none ∷ images) ds = none ∷ spread images ds
  spread (some image ∷ images) [] = some [] ∷ spread images []
  spread (some image ∷ images) (d ∷ ds) = some d ∷ spread images ds

  abbrev pub detect_valid : Outside → List Image → Result (List (List Detection))
  detect_valid out [] = ok []
  detect_valid out (image ∷ images) = out.detect (image ∷ images)

  -- A detected box, cut to the image. `int` drops the tenths of a coordinate.
  abbrev pub crop_of : Outside → Image → Detection → Crop
  crop_of out image det = record {
    image = image;
    x1 = max_z (pos 0) (whole_of det.box.x1);
    y1 = max_z (pos 0) (whole_of det.box.y1);
    x2 = min_z (pos (out.shape image).0) (whole_of det.box.x2);
    y2 = min_z (pos (out.shape image).1) (whole_of det.box.y2);
  }

  -- The crops of all detections, task by task.
  pub crops_of : Outside → List (Option Image) → List (Option (List Detection)) → List Crop
  crops_of out (some image ∷ images) (some dets ∷ results) =
      map (crop_of out image) dets ++ crops_of out images results
  crops_of out (none ∷ images) (r ∷ results) = crops_of out images results
  crops_of out images results = []

  -- The second stage: no crop, no call of the model.
  pub classify_crops :
      Outside → List Crop → List (Option (List Detection)) → Result (List (Option (List Detection)))
  classify_crops out [] results = ok results
  classify_crops out (c ∷ crops) results = do
    labels ← out.classify (c ∷ crops)
    ok (label_results results labels)

  abbrev pub ml_result : Outside → String → Task → List Detection → ResultMessage
  ml_result out worker_id task ds = record {
    job_id = some task.job_id;
    tile_id = some task.tile_id;
    result_blob_key = none;
    detections = some ds;
    worker_id = some worker_id;
    x = some task.x;
    y = some task.y;
    width = some task.width;
    height = some task.height;
    processing_time = some out.per_tile_time;
  }

  -- `produce`, once more after a BufferError.
  abbrev pub produce_result : Outside → ResultMessage → Result (Unit {0})
  produce_result out m = elim (out.produce m) [
    | ok _ ↦ ok tt
    | raise buffer_error ↦ out.produce_again m
    | raise e ↦ raise e
  ]

  -- The loop over the tasks: the results taken so far, the newest first, and the exception that ends
  -- it. A task whose image was not fetched has no result.
  pub publish_results :
      Outside
      → String
      → List Task
      → List (Option (List Detection))
      → List ResultMessage
      → List ResultMessage × Result (Unit {0})
  publish_results out worker_id (task ∷ tasks) (none ∷ ds) published =
      publish_results out worker_id tasks ds published
  publish_results out worker_id (task ∷ tasks) (some d ∷ ds) published =
      elim (produce_result out (ml_result out worker_id task d)) [
        | raise e ↦ (published, raise e)
        | ok _ ↦ publish_results out worker_id tasks ds (ml_result out worker_id task d ∷ published)
      ]
  publish_results out worker_id tasks ds published = (published, ok tt)

  abbrev pub tasks_of : List Item → List Task
  tasks_of [] = []
  tasks_of ((task, m) ∷ items) = task ∷ tasks_of items

  abbrev pub messages_of : List Item → List ℕ
  messages_of [] = []
  messages_of ((task, m) ∷ items) = m ∷ messages_of items

  -- Both stages of inference: what each task has to publish, or the exception of a model.
  pub infer : Outside → List Task → Result (List (Option (List Detection)))
  unfolding crops_of classify_crops
  infer out tasks =
      let images = map (fetched out) tasks in
      detect_valid out (valid_images images) >>= λ ds.
      classify_crops out (crops_of out images (spread images ds)) (spread images ds)

  -- `_process_batch`, with the handler of its exceptions in `batch_loop`.
  pub process_batch : Outside → String → List Item → Service → Service
  unfolding publish_results infer
  process_batch out worker_id items s = elim (infer out (tasks_of items)) [
    | raise e ↦ s
    | ok ds ↦
        let (published, outcome) = publish_results out worker_id (tasks_of items) ds s.published in
        elim outcome [
          | raise e ↦ record s { published = published }
          | ok _ ↦
              if ltb 0 out.still_queued then (record s { published = published }) else (record s {
                published = published;
                to_commit = s.to_commit ++ messages_of items;
              })
        ]
  ]

  -- The end of `_collect_batch`: the batch is processed if it has an item, and a new one begins.
  pub finish_batch : Outside → String → Service → Service
  unfolding process_batch
  finish_batch out worker_id s = elim s.batch [
    | [] ↦ record s { batch = []; deadline = none }
    | item ∷ items ↦
        process_batch out worker_id (item ∷ items) (record s { batch = []; deadline = none })
  ]

  pub batch_step : Config → Outside → String → ℕ → Bool → Service → Service
  unfolding collect_once finish_batch
  batch_step c out worker_id now is_shutdown s = elim (collect_once c now is_shutdown s) [
    | some s' ↦ s'
    | none ↦ finish_batch out worker_id s
  ]
