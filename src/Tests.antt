-- ===== src/Tests.antt =====
-- A blob and a result that the examples share.
mod Jobs
mod Parts
mod Workers
mod Images
mod Admin
mod Detections
mod Engine
use dip.Redis.{BlobKey, BlobKind, result_blob_key, TileInfo}

abbrev pub task_key : BlobKey
task_key = record { job_id = 7; kind = BlobKind.task; tile_id = 0 }

abbrev pub some_info : TileInfo
some_info = record {
  payload = result_blob_key task_key;
  worker_id = "worker1";
  x = 0;
  y = 0;
  width = 32;
  height = 32;
}
