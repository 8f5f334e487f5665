-- ===== src/Detect/Images.antt =====
-- master/ml_routes.py: /detect, the upload of an image for detection. The configuration, the
-- request's file, the answers of the other code and the guards are those of /upload, which the route
-- repeats.
pub mod Outcome
use Prim.Native.String.{String}
use dip.Prelude.{
  ℕ, List, ◌∷◌, ◌++◌, Option, none, some, ◌||◌, Result, ok, raise, value_error, if◌then◌else◌,
  length, ◌>>=◌,
}
use dip.Imaging.{Geometry}
use dip.Imaging.Probe.{probe_image_dimensions}
use dip.Redis.{Redis, object_detection}
use dip.Jobstore.{create_job}
use dip.Publisher.{publish_ml_tasks}
use dip.Upload.{
  Config, Filename, Outside, Response, uploaded, refused, split_image_into_tiles, is_too_large,
  is_too_small, probe_refuses, extension_of, Uploads, new_job, remove_then, refuse, nothing_stored,
  partly_stored, stored,
}

module _ (R : Redis) where
  -- Behind the removal of the file: the job is created and its ML tasks are published.
  pub dispatch_detection :
      Config → Outside → String → ℕ → ℕ → List Geometry → Uploads R → Uploads R × Response
  dispatch_detection c out filename width height tiles w =
      let new = new_job R c out object_detection filename width height (length tiles) in
      let (published, success) =
        publish_ml_tasks R out.publisher out.job_id (out.completion tiles) c.batch_size
          (create_job R out.job_id new out.now w.server) in
      (
        record w { server = published.server; sent = published.sent ++ w.sent },
        (if success then uploaded out.job_id (length tiles) else refused 500),
      )

  -- Behind the header's probe.
  pub accept_detection : Config → Outside → String → Uploads R → Uploads R × Response
  unfolding dispatch_detection
  accept_detection c out filename w = elim out.image [
    | raise e ↦ (w, refused 500)
    | ok none ↦ refuse R out 400 w
    | ok (some (width, height)) ↦
        if is_too_small c (width, height) || is_too_large c (width, height)
        then refuse R out 400 w
        else elim (split_image_into_tiles c.max_tiles width height c.tile_size) [
          | ok tiles ↦
              remove_then R out.remove out.job_id w
                (dispatch_detection c out filename width height tiles)
          | raise value_error ↦ refuse R out 400 w
          | raise e ↦ (w, refused 500)
        ]
  ]

  -- Behind `file.save`, with the file on the disk.
  pub probe_detection : Config → Outside → String → Uploads R → Uploads R × Response
  unfolding accept_detection
  probe_detection c out filename w = elim (out.header >>= λ header. probe_image_dimensions header) [
    | raise e ↦ (w, refused 500)
    | ok probed ↦
        if probe_refuses c probed then refuse R out 400 w else accept_detection c out filename w
  ]

  -- `detect_image`: no operation to check, and no worker to wait for.
  pub detect_image : Config → Outside → Option Filename → Uploads R → Uploads R × Response
  unfolding probe_detection
  detect_image c out file w = elim (extension_of c file) [
    | none ↦ (w, refused 400)
    | some filename ↦ elim out.save [
      | nothing_stored ↦ (w, refused 500)
      | partly_stored ↦ (record w { files = out.job_id ∷ w.files }, refused 500)
      | stored ↦ probe_detection c out filename (record w { files = out.job_id ∷ w.files })
    ]
  ]
