-- ===== src/Tasks.antt =====
-- The task messages of the two pipelines, as master/publisher.py, master/ml_publisher.py and
-- master/reaper.py build them.
use dip.Prelude.{ℕ, Option}
use dip.Redis.{Operation, BlobKey}

pub data Topic : Type 0 where
  tasks ml_tasks : Topic

-- `operation` is absent from a task of `ml_tasks`, and `attempt` from a first dispatch. The
-- timestamp, which nothing reads, is left out.
pub record Task : Type 0 where
  pub job_id : ℕ
  pub tile_id : ℕ
  pub blob_key : BlobKey
  pub x : ℕ
  pub y : ℕ
  pub width : ℕ
  pub height : ℕ
  pub operation : Option Operation
  pub attempt : Option ℕ
