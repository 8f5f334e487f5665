-- ===== src/Reaper.antt =====
-- master/reaper.py: the sweep that republishes tiles which never came back, and gives up in the end.
pub mod Cases
pub mod Invariant
pub mod Budget
pub mod Outcome
pub mod Decision
pub mod Frame
pub mod Liveness
use dip.Prelude.{
  ℕ, ◌+◌, max, List, [], ◌∷◌, ◌++◌, Option, none, some, Bool, true, false, not, ltb, ◌==◌, Result,
  ok, raise, ◌>>=◌, if◌then◌else◌, keep_if, upto,
}
use dip.Imaging.{Geometry, tile_geometries}
use dip.Redis.{Redis, Status, Operation, object_detection, opencv, BlobKey, BlobKind, TileInfo}
use dip.Tasks.{Topic, tasks, ml_tasks, Task}
use dip.Results.{is_processing}
use dip.Jobstore.{
  Job, get_job, get_last_reap_time, get_tile_results, get_abandoned_tiles, incr_tile_attempts,
  add_abandoned_tile, set_job_status, set_last_reap_time,
}

-- MAX_TILE_ATTEMPTS, TILE_OUTSTANDING_TIMEOUT_SECONDS in milliseconds, and TILE_SIZE.
pub record Config : Type 0 where
  pub max_tile_attempts : ℕ
  pub outstanding_timeout : ℕ
  pub default_tile_size : ℕ

-- What the blob store and the producer answer: whether a blob is there, and whether `produce` (with
-- the `poll` behind it) raises.
pub record Outside : Type 0 where
  pub tile_exists : BlobKey → Bool
  pub produce : Topic → Task → Result (Unit {0})

abbrev pub is_ml : Operation → Bool
is_ml object_detection = true
is_ml (opencv name) = false

abbrev pub is_some {ℓ} : {A : Type ℓ} → Option A → Bool
is_some none = false
is_some (some a) = true

-- `geometries.get(tile_id)` of the dictionary by tile id, in which a later entry wins.
abbrev pub find_geometry : ℕ → List Geometry → Option Geometry
find_geometry t [] = none
find_geometry t (g ∷ gs) = elim (find_geometry t gs) [
  | some found ↦ some found
  | none ↦ if g.tile_id == t then some g else none
]

abbrev pub requeue_task : ℕ → Operation → Geometry → ℕ → Task
requeue_task j o g attempt = record {
  job_id = j;
  tile_id = g.tile_id;
  blob_key = record {
    job_id = j;
    kind = if is_ml o then BlobKind.ml_task else BlobKind.task;
    tile_id = g.tile_id;
  };
  x = g.x;
  y = g.y;
  width = g.width;
  height = g.height;
  operation = if is_ml o then none else some o;
  attempt = some attempt;
}

abbrev pub topic_of : Operation → Topic
topic_of o = if is_ml o then ml_tasks else tasks

-- The task that is sent; `none` if its blob is gone.
pub republish_tile : Outside → ℕ → Operation → Geometry → ℕ → Result (Option Task)
republish_tile out j o g attempt =
    let task = requeue_task j o g attempt in
    if out.tile_exists task.blob_key
    then (out.produce (topic_of o) task >>= λ _. ok (some task))
    else ok none

module _ (R : Redis) where
  open R use {Server}

  -- The state of a sweep: the server, the tasks sent so far (the newest first), the count that is
  -- returned, and the jobs that were given up, whose blobs are deleted (the newest first).
  pub record Sweep : Type 0 where
    pub server : Server
    pub sent : List Task
    pub requeued : ℕ
    pub degraded : List ℕ

  abbrev pub missing_tile_ids : ℕ → ℕ → Server → List ℕ
  missing_tile_ids j expected_tiles s =
      keep_if (λ t. not (is_some (get_tile_results R j s t))) (upto expected_tiles 0)

  abbrev abandon : ℕ → ℕ → Sweep → Sweep
  abandon j t w = record w { server = add_abandoned_tile R j t w.server }

  -- What follows the answer of `_republish_tile`.
  pub after_republish : ℕ → ℕ → Sweep → Result (Option Task) → Sweep × Result (Unit {0})
  after_republish j t w (raise e) = (w, raise e)
  after_republish j t w (ok none) = (abandon j t w, ok tt)
  after_republish j t w (ok (some task)) =
      (record w { sent = task ∷ w.sent; requeued = w.requeued + 1 }, ok tt)

  -- The body of the loop over the retryable tiles.
  pub reap_tile :
      Config → Outside → ℕ → Operation → List Geometry → ℕ → Sweep → Sweep × Result (Unit {0})
  unfolding after_republish republish_tile
  reap_tile c out j o geometries t w =
      let (s', count) = incr_tile_attempts R j t w.server in
      let attempt = count + 1 in
      let w' = record w { server = s' } in
      if ltb c.max_tile_attempts attempt
      then (abandon j t w', ok tt)
      else elim (find_geometry t geometries) [
        | none ↦ (abandon j t w', ok tt)
        | some g ↦ after_republish j t w' (republish_tile out j o g attempt)
      ]

  -- An exception ends the loop.
  pub reap_tiles :
      Config → Outside → ℕ → Operation → List Geometry → List ℕ → Sweep → Sweep × Result (Unit {0})
  unfolding reap_tile
  reap_tiles c out j o geometries [] w = (w, ok tt)
  reap_tiles c out j o geometries (t ∷ ts) w = elim ((reap_tile c out j o geometries t w).1) [
    | raise e ↦ ((reap_tile c out j o geometries t w).0, raise e)
    | ok _ ↦ reap_tiles c out j o geometries ts (reap_tile c out j o geometries t w).0
  ]

  -- The requeue of a job: `flush` and `set_last_reap_time` come only if no tile raised.
  pub requeue_job : Config → Outside → ℕ → ℕ → Job → List ℕ → Sweep → Sweep
  unfolding reap_tiles
  requeue_job c out now j found retryable w =
      elim (tile_geometries found.original_width found.original_height found.tile_size) [
        | raise e ↦ w
        | ok geometries ↦ elim (reap_tiles c out j found.operation geometries retryable w).1 [
          | raise e ↦ (reap_tiles c out j found.operation geometries retryable w).0
          | ok _ ↦
              let w' = (reap_tiles c out j found.operation geometries retryable w).0 in
              record w' { server = set_last_reap_time R j now w'.server }
        ]
      ]

  abbrev pub degrade : ℕ → Sweep → Sweep
  degrade j w = record w {
    server = set_job_status R j Status.degraded w.server;
    degraded = j ∷ w.degraded;
  }

  -- The two early `continue`s for want of missing tiles, the job given up, or its requeue.
  pub reap_missing : Config → Outside → ℕ → ℕ → Job → List ℕ → List ℕ → Sweep → Sweep
  unfolding requeue_job
  reap_missing c out now j found [] retryable w = w
  reap_missing c out now j found (m ∷ ms) [] w = degrade j w
  reap_missing c out now j found (m ∷ ms) (t ∷ ts) w = requeue_job c out now j found (t ∷ ts) w

  -- The job has been quiet for the timeout. `now - last < timeout` is `now < last + timeout`.
  pub reap_job_data : Config → Outside → ℕ → ℕ → Job → Sweep → Sweep
  unfolding reap_missing
  reap_job_data c out now j found w = elim (get_last_reap_time R j w.server) [
    | raise e ↦ w
    | ok last_reap ↦
        if ltb now (max found.timestamp last_reap + c.outstanding_timeout)
        then w
        else let missing = missing_tile_ids j found.expected_tiles w.server in
          reap_missing c out now j found missing
            (keep_if (λ t. not (get_abandoned_tiles R j w.server t)) missing) w
  ]

  -- The body of the loop of `reap_once` for one job. An exception is logged, and what was done
  -- before it stays.
  pub reap_job : Config → Outside → ℕ → ℕ → Sweep → Sweep
  unfolding reap_job_data
  reap_job c out now j w = elim (get_job R c.default_tile_size j w.server) [
    | raise e ↦ w
    | ok none ↦ w
    | ok (some found) ↦ if is_processing found.status then reap_job_data c out now j found w else w
  ]

  -- `reap_once` over the scanned jobs, each with the answer of `is_leader` before it.
  pub reap_once : Config → Outside → ℕ → List (Bool × ℕ) → Sweep → Sweep
  unfolding reap_job
  reap_once c out now [] w = w
  reap_once c out now ((false, j) ∷ jobs) w = w
  reap_once c out now ((true, j) ∷ jobs) w = reap_once c out now jobs (reap_job c out now j w)
