-- ===== src/Detect/Images/Outcome.antt =====
-- What an upload to /detect of master/ml_routes.py leaves.
use Prim.Native.String.{String}
use dip.Prelude.{
  ℕ, ◌<◌, ◌≡◌, refl, Option, none, some, ◌||◌, Result, ok, raise, List, length, arith, inl, inr,
  Bool-cases, Option-cases, ==-refl,
}
use dip.Imaging.{layout}
use dip.Imaging.Probe.Total.{probe_image_dimensions_total}
use dip.Redis.{Redis, job, Status, object_detection, missing}
use dip.Jobstore.View.{create_job-HoldsJob}
use dip.Publisher.Readable.{publish_ml_tasks-HoldsJob}
use dip.Upload.{
  Config, Filename, Outside, is_too_large, is_too_small, probe_refuses, extension_of, Uploads,
  new_job, Saved, stored, partly_stored, nothing_stored,
}
use dip.Upload.Outcome.{
  Outcome, save_failed, open_failed, imread_failed, split_image_into_tiles_cases, saved_file,
  refused-Outcome, refuse-Outcome, left-Outcome, remove_then-Outcome,
}
use dip.Detect.Images.{dispatch_detection, accept_detection, probe_detection, detect_image}

module _ (R : Redis) (d : ℕ) (c : Config) (out : Outside) where
  open R use {Server, entry}

  accept_detection-Outcome :
      (filename : String) (w : Uploads R)
      → 0 < c.tile_size
      → entry (job out.job_id) w.server ≡ missing
      → Outcome R d c out w (accept_detection R c out filename (saved_file R d c out w))
  unfolding accept_detection dispatch_detection
  accept_detection-Outcome filename w pos fresh = go out.image refl
    where
      go :
          (o : Result (Option (ℕ × ℕ)))
          → out.image ≡ o
          → Outcome R d c out w (accept_detection R c out filename (saved_file R d c out w))
      go (raise e) x = simp (accept_detection, x) (left-Outcome R d c out w (imread_failed e x))
      go (ok none) x = simp (accept_detection, x) (refuse-Outcome R d c out w)
      go (ok (some (width, height))) x =
          elim (Bool-cases (is_too_small c (width, height) || is_too_large c (width, height))) [
            | inl wrong ↦ simp (accept_detection, x, wrong) (refuse-Outcome R d c out w)
            | inr right ↦
                elim (split_image_into_tiles_cases c.max_tiles width height c.tile_size pos) [
                  | inl many ↦ simp (accept_detection, x, right, many) (refuse-Outcome R d c out w)
                  | inr tiles ↦
                      simp (accept_detection, x, right, tiles)
                        (remove_then-Outcome R d c out w _ (
                          simp (==-refl out.job_id) (
                            inl (
                              refl,
                              inr (record {
                                size = (width, height);
                                read = x;
                                accepted = ground (arith, right);
                                waiting =
                                    publish_ml_tasks-HoldsJob R d out.job_id
                                      (length (layout width height c.tile_size)) Status.processing
                                      out.publisher c.batch_size _ _
                                      (create_job-HoldsJob R d out.job_id out.now
                                        (new_job R c out object_detection filename width height
                                          (length (layout width height c.tile_size)))
                                        w.server fresh);
                              }),
                            ))))
                ]
          ]

  probe_detection-Outcome :
      (filename : String) (w : Uploads R)
      → 0 < c.tile_size
      → entry (job out.job_id) w.server ≡ missing
      → Outcome R d c out w (probe_detection R c out filename (saved_file R d c out w))
  unfolding probe_detection
  probe_detection-Outcome filename w pos fresh = go out.header refl
    where
      go :
          (r : Result (List ℕ))
          → out.header ≡ r
          → Outcome R d c out w (probe_detection R c out filename (saved_file R d c out w))
      go (raise e) x = simp (x, probe_detection) (left-Outcome R d c out w (open_failed e x))
      go (ok header) x =
          let probed = probe_image_dimensions_total header in
          elim (Bool-cases (probe_refuses c probed.0)) [
            | inl too_large ↦
                simp (x, probed.1, probe_detection, too_large) (refuse-Outcome R d c out w)
            | inr e ↦
                simp (x, probed.1, probe_detection, e)
                  (accept_detection-Outcome filename w pos fresh)
          ]

  -- With a positive tile size, and under a new job id that no key uses: unless a call on the file
  -- raises while it is on the disk, an upload to /detect leaves no file there, and it is refused,
  -- with nothing changed at the server and nothing sent, or the image has the allowed size and the
  -- server holds a job that waits for all tiles of its layout. If a save that raises left a part of
  -- the file, or `open`, OpenCV or `os.remove` raises, the upload may instead be refused with 500 and
  -- nothing changed at the server and nothing sent; then the file stays on the disk.
  pub detect_image-Outcome :
      (file : Option Filename) (w : Uploads R)
      → 0 < c.tile_size
      → entry (job out.job_id) w.server ≡ missing
      → Outcome R d c out w (detect_image R c out file w)
  unfolding detect_image
  detect_image-Outcome file w pos fresh = elim (Option-cases (extension_of c file)) [
    | inl bad ↦ simp (bad, detect_image) (refused-Outcome R d c out w 400)
    | inr named ↦ saved named.0 named.1 out.save refl
  ]
    where
      saved :
          (filename : String)
          → extension_of c file ≡ some filename
          → (r : Saved) → out.save ≡ r
          → Outcome R d c out w (detect_image R c out file w)
      saved filename named nothing_stored e =
          simp (named, e, detect_image) (refused-Outcome R d c out w 500)
      saved filename named partly_stored e =
          simp (named, e, detect_image) (left-Outcome R d c out w (save_failed e))
      saved filename named stored e =
          simp (named, e, detect_image) (probe_detection-Outcome filename w pos fresh)
