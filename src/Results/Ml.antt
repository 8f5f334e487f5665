-- ===== src/Results/Ml.antt =====
-- master/ml_results_consumer.py: what a message of `ml_results` does to a detection job.
pub mod Once
use dip.Prelude.{
  ℕ, List, [], ◌∷◌, Option, none, some, Bool, true, false, Result, ok, raise, ◌>>=◌, if◌then◌else◌,
}
use dip.Redis.{Redis, job, Status, Field, Value, Payload, detections, hset}
use dip.Jobstore.{get_job, record_tile_result}
use dip.Results.{
  ResultMessage, required, get_or, Delivery, tile_info_with, is_complete, Polled, nothing,
  consumer_error, invalid_json, message, succeeded,
}

pub read_ml_message : ResultMessage → Result Delivery
read_ml_message m = do
  j ← required m.job_id
  t ← required m.tile_id
  worker_id ← required m.worker_id
  ok (record {
    job_id = j;
    tile_id = t;
    info = tile_info_with (detections (get_or m.detections [])) worker_id m;
    processing_time = get_or m.processing_time 0;
  })

module _ (R : Redis) where
  open R use {Server, command}

  -- The server, and the jobs for which `jobs_finished_total` was counted, the newest first.
  pub record MlState : Type 0 where
    pub server : Server
    pub finished : List ℕ

  -- The part of `_process_message` behind `record_tile_result`; `delete_job_tiles` is the sweep of
  -- the blobs, which comes after the write and may raise.
  pub finish : ℕ → (ℕ → Result (Unit {0})) → ℕ → ℕ → MlState → MlState × Result (Unit {0})
  finish default_tile_size delete_job_tiles j received_count w =
      elim (get_job R default_tile_size j w.server) [
        | raise e ↦ (w, raise e)
        | ok none ↦ (w, ok tt)
        | ok (some found) ↦
            if is_complete found received_count
            then (
              record {
                server =
                    command (job j) (hset ((Field.status, Value.status Status.completed) ∷ []))
                      w.server;
                finished = j ∷ w.finished;
              },
              delete_job_tiles j,
            )
            else (w, ok tt)
      ]

  pub deliver_ml : ℕ → (ℕ → Result (Unit {0})) → Delivery → MlState → MlState × Result (Unit {0})
  unfolding finish
  deliver_ml default_tile_size delete_job_tiles m w =
      let (s', received_count) =
        record_tile_result R m.job_id m.tile_id m.info m.processing_time w.server in
      finish default_tile_size delete_job_tiles m.job_id received_count (record w { server = s' })

  pub process_ml_message :
      ℕ → (ℕ → Result (Unit {0})) → ResultMessage → MlState → MlState × Result (Unit {0})
  unfolding deliver_ml
  process_ml_message default_tile_size delete_job_tiles m w = elim (read_ml_message m) [
    | raise e ↦ (w, raise e)
    | ok d ↦ deliver_ml default_tile_size delete_job_tiles d w
  ]

  -- One round of the inner loop of `listen_for_ml_results`, and whether the offset is committed.
  pub poll_ml_once : ℕ → (ℕ → Result (Unit {0})) → Polled → MlState → MlState × Bool
  unfolding process_ml_message
  poll_ml_once default_tile_size delete_job_tiles nothing w = (w, false)
  poll_ml_once default_tile_size delete_job_tiles consumer_error w = (w, false)
  poll_ml_once default_tile_size delete_job_tiles invalid_json w = (w, false)
  poll_ml_once default_tile_size delete_job_tiles (message m) w =
      let (w', outcome) = process_ml_message default_tile_size delete_job_tiles m w in
      (w', succeeded outcome)

  -- Both loops of `listen_for_ml_results`: each round has the answer of `is_leader`, what the sweep
  -- of the blobs answers in it, and what is polled. A process that is not the leader polls nothing
  -- and asks again.
  pub listen_ml : ℕ → List (Bool × (ℕ → Result (Unit {0})) × Polled) → MlState → MlState
  unfolding poll_ml_once
  listen_ml default_tile_size [] w = w
  listen_ml default_tile_size ((false, delete_job_tiles, polled) ∷ rounds) w =
      listen_ml default_tile_size rounds w
  listen_ml default_tile_size ((true, delete_job_tiles, polled) ∷ rounds) w =
      listen_ml default_tile_size rounds
        (poll_ml_once default_tile_size delete_job_tiles polled w).0
