-- ===== src/Routes.antt =====
-- master/app.py: what the routes of a job answer, and what /reconstruct does to it.
pub mod Reconstruct
use Prim.Native.String.{String}
use dip.Prelude.{
  ℕ, ◌+◌, List, [], ◌∷◌, Option, none, some, Bool, true, false, ltb, ◌==◌, Error, Result, ok, raise,
  key_error, ◌>>=◌, if◌then◌else◌, length, max,
}
use dip.Redis.{Redis, Status, BlobKey, Payload, result_blob_key, detections, TileInfo}
use dip.Jobstore.{
  Job, get_job, get_tile_results, count_tile_results, mark_job_completed, delete_job_tile_state,
}
use dip.Results.{required}

-- The JSON of a status, a file, the count of a reconstruction, or an error with its code.
pub data Response : Type 0 where
  status_of : Job → ℕ → ℕ → Response
  file : String → Response
  reconstructed : ℕ → Response
  refused : ℕ → Response

abbrev pub is_completed : Status → Bool
is_completed Status.completed = true
is_completed _ = false

module _ (R : Redis) where
  open R use {Server}

  -- `check_status`; `percent` is the floating-point arithmetic of the progress.
  pub check_status : (ℕ → ℕ → ℕ) → ℕ → ℕ → Server → Response
  check_status percent default_tile_size j s = elim (get_job R default_tile_size j s) [
    | raise e ↦ refused 500
    | ok none ↦ refused 404
    | ok (some found) ↦
        let expected_tiles = max found.expected_tiles 1 in
        status_of found (percent found.results_count expected_tiles) expected_tiles
  ]

  -- The file of a path, if there is a path and a file.
  abbrev pub send_file : (String → Bool) → Option String → Response
  send_file exists none = refused 404
  send_file exists (some path) = if exists path then file path else refused 404

  -- `get_result`
  pub get_result : (String → Bool) → ℕ → ℕ → Server → Response
  get_result exists default_tile_size j s = elim (get_job R default_tile_size j s) [
    | raise e ↦ refused 500
    | ok none ↦ refused 404
    | ok (some found) ↦
        if is_completed found.status then send_file exists found.result_path else refused 400
  ]

  module _ (Bytes : Type 0) where
    -- The order in which HGETALL shows the tiles, the blob store, the drawing with the write of the
    -- file, the path, the clock, the attempt counters that a scan finds, and the sweep of the blobs.
    pub record Outside : Type 0 where
      pub shown : List ℕ
      pub get_tile : BlobKey → Result Bytes
      pub render : List (ℕ × TileInfo × Bytes) → ℕ → ℕ → Result (Unit {0})
      pub result_path : String
      pub now : ℕ
      pub attempt_tiles : List ℕ
      pub delete_job_tiles : ℕ → Result (Unit {0})

    -- `tile_info['result_blob_key']`: the detections of an ML tile have no such key.
    abbrev pub blob_key_of : Payload → Result BlobKey
    blob_key_of (result_blob_key key) = ok key
    blob_key_of (detections ds) = raise key_error

    -- The list of the received tiles with their bytes.
    pub fetch_tiles : Outside → ℕ → Server → List ℕ → Result (List (ℕ × TileInfo × Bytes))
    fetch_tiles out j s [] = ok []
    fetch_tiles out j s (t ∷ ts) = do
      info ← required (get_tile_results R j s t)
      key ← blob_key_of info.payload
      bytes ← out.get_tile key
      rest ← fetch_tiles out j s ts
      ok ((t, info, bytes) ∷ rest)

    -- `sort(key=lambda t: t['tile_id'])`
    abbrev pub insert_tile :
        ℕ × TileInfo × Bytes → List (ℕ × TileInfo × Bytes) → List (ℕ × TileInfo × Bytes)
    insert_tile a [] = a ∷ []
    insert_tile a (b ∷ bs) = if ltb b.0 a.0 then b ∷ insert_tile a bs else a ∷ b ∷ bs

    abbrev pub sort_tiles : List (ℕ × TileInfo × Bytes) → List (ℕ × TileInfo × Bytes)
    sort_tiles [] = []
    sort_tiles (a ∷ as') = insert_tile a (sort_tiles as')

    -- Behind the drawing: the job is completed, and its tiles are deleted.
    pub complete_job : Outside → ℕ → ℕ → Server → Server × Response
    complete_job out j tiles_processed s =
        let s' =
          delete_job_tile_state R j out.attempt_tiles
            (mark_job_completed R j out.result_path out.now s) in
        elim (out.delete_job_tiles j) [
          | ok _ ↦ (s', reconstructed tiles_processed)
          | raise e ↦ (s', refused 500)
        ]

    abbrev pub draw : Outside → ℕ → Job → Server → Result ℕ
    draw out j found s = do
      fetched ← fetch_tiles out j s out.shown
      drawn ← out.render (sort_tiles fetched) found.original_width found.original_height
      ok (length fetched)

    -- `reconstruct_job`
    pub reconstruct_job : Outside → ℕ → ℕ → Server → Server × Response
    unfolding fetch_tiles complete_job
    reconstruct_job out default_tile_size j s = elim (get_job R default_tile_size j s) [
      | raise e ↦ (s, refused 500)
      | ok none ↦ (s, refused 404)
      | ok (some found) ↦
          if ltb (count_tile_results R j s) found.expected_tiles
          then (s, refused 400)
          else elim (draw out j found s) [
            | raise e ↦ (s, refused 500)
            | ok n ↦ complete_job out j n s
          ]
    ]
