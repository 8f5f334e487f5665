-- ===== src/Tests/Workers.antt =====
-- The theorems on the two kinds of workers, at concrete inputs.
use dip.Prelude.{
  ℕ, ◌≤◌, ◌≡◌, refl, List, [], ◌∷◌, none, some, Bool, true, false, ◌==◌, ok, raise, timeout_error,
  if◌then◌else◌, length, arith,
}
use dip.Redis.{opencv, BlobKind}
use dip.Tasks.{Task}
use dip.Worker
use dip.Worker.{State, Tools, Broker, handle, process_tile}
use dip.Worker.Retries.{tile_outcome, process_tile-first_success}
use dip.Worker.Ledger.{Fate, Stored, handle-Fate}
use dip.Inference
use dip.Inference.{process_batch}
use dip.Inference.Batch.{CommitsAll, process_batch-commits}
use dip.Inference.Queue.{Turn, polls, batches, interleave, interleave-pending}
use dip.Tests.{task_key}

abbrev first_task : Task
first_task = record {
  job_id = 7;
  tile_id = 0;
  blob_key = task_key;
  x = 0;
  y = 0;
  width = 32;
  height = 32;
  operation = some (opencv "grayscale");
  attempt = none;
}

-- The blob store does not answer on the first attempt.
abbrev slow_store : Tools ℕ ℕ
slow_store = record {
  get_tile = λ attempt key. if attempt == 0 then raise timeout_error else ok 1;
  decode_image = λ attempt bytes. ok bytes;
  operation_map = λ name. some (λ attempt image. ok image);
  encode_image = λ attempt image. ok image;
  put_tile = λ attempt j t bytes. ok (record { job_id = j; kind = BlobKind.result; tile_id = t });
  elapsed = λ attempt. 5;
}

-- The delivery of every message fails.
abbrev broken_broker : Broker
broken_broker = record {
  produce = λ m. ok tt;
  still_queued = λ m. 0;
  delivery_failed = λ m. true;
  commit = ok tt;
}

abbrev idle : State
idle = record {
  tasks_processed = 0;
  tasks_failed = 0;
  total_processing_time = 0;
  success_total = 0;
  failed_total = 0;
  dlq_total = 0;
  slept = [];
  sent = [];
}

handle-Fate_example :
    ((handle ℕ ℕ slow_store broken_broker "worker1" (Worker.message first_task) idle).1
      ≡ Worker.committed)
    × Fate
        (Stored ℕ ℕ slow_store (opencv "grayscale") first_task)
        broken_broker
        first_task
        []
        (handle ℕ ℕ slow_store broken_broker "worker1" (Worker.message first_task) idle).0.sent
handle-Fate_example =
    handle-Fate ℕ ℕ slow_store broken_broker "worker1" first_task (opencv "grayscale") idle refl

process_tile-first_success_example :
    process_tile ℕ ℕ slow_store "worker1" first_task (opencv "grayscale") idle
    ≡ tile_outcome "worker1" first_task slow_store.elapsed idle
        (some (1, record { job_id = 7; kind = BlobKind.result; tile_id = 0 }))
process_tile-first_success_example =
    process_tile-first_success ℕ ℕ slow_store "worker1" first_task (opencv "grayscale") idle
      (λ attempt image. ok image) refl

abbrev small_queue : Inference.Config
small_queue = record { batch_size = 2; batch_timeout_ms = 50; max_queue = 2; resume_queue = 1 }

abbrev idle_service : Inference.Service
idle_service = record {
  pending = [];
  to_commit = [];
  paused = false;
  batch = [];
  deadline = none;
  committed = [];
  published = [];
}

-- One model answers with no detection; the second image cannot be fetched.
abbrev one_image : Inference.Outside ℕ
one_image = record {
  fetch = λ key. if key.tile_id == 0 then ok 1 else raise timeout_error;
  detect = λ images. ok ([] ∷ []);
  shape = λ image. (256, 256);
  classify = λ crops. ok (("tabby", 9_000) ∷ []);
  produce = λ m. ok tt;
  produce_again = λ m. ok tt;
  still_queued = 0;
  per_tile_time = 5;
}

abbrev second_task : Task
second_task = record first_task {
  tile_id = 1;
  blob_key = record { job_id = 7; kind = BlobKind.ml_task; tile_id = 1 };
}

-- A message unless the consumer is paused.
abbrev eager : Bool → Inference.Polled
eager paused = if paused then Inference.nothing else Inference.message first_task 3

abbrev four_polls : List (Turn small_queue ℕ)
four_polls =
    polls (λ m. false) eager
    ∷ polls (λ m. false) eager
    ∷ polls (λ m. false) eager
    ∷ batches one_image "inference1" 10 false
    ∷ []

interleave-pending_example : length (interleave small_queue ℕ four_polls idle_service).pending ≤ 2
interleave-pending_example =
    interleave-pending small_queue ℕ four_polls idle_service (omega arith)
      (tt, (tt, (tt, (tt, tt)))) (omega arith)

process_batch-commits_example :
    CommitsAll ℕ one_image "inference1" ((first_task, 3) ∷ (second_task, 4) ∷ []) idle_service (
      process_batch ℕ one_image "inference1" ((first_task, 3) ∷ (second_task, 4) ∷ []) idle_service)
process_batch-commits_example =
    process_batch-commits ℕ one_image "inference1" ((first_task, 3) ∷ (second_task, 4) ∷ [])
      idle_service
