-- ===== src/Upload/Outcome.antt =====
-- What an upload of master/app.py leaves.
use Prim.Native.String.{String}
use dip.Prelude.{
  ℕ, ◌+◌, ◌-◌, ◌/◌, ◌*◌, ◌≤◌, ◌<◌, ◌≡◌, refl, ◌∷◌, Option, none, some, true, false, ◌||◌, ltb, ◌==◌,
  Result, ok, raise, Error, List, value_error, length, arith, inl, inr, ◌⊎◌, Bool-cases,
  Option-cases, ==-refl,
}
use dip.Imaging.{layout}
use dip.Imaging.Probe.Total.{probe_image_dimensions_total}
use dip.Redis.{Redis, job, Status, Operation, missing}
use dip.Jobstore.View.{HoldsJob, create_job-HoldsJob}
use dip.Publisher.Readable.{publish_tile_tasks-HoldsJob}
use dip.Upload.{
  Config, Request, Outside, Response, refused, split_image_into_tiles, is_too_large, is_too_small,
  probe_refuses, extension_of, Uploads, new_job, remove_file, remove_then, refuse, dispatch,
  accept_image, probe_image, Saved, stored, partly_stored, nothing_stored, upload_image,
}

-- An image of the allowed size, and its tiles.
abbrev pub IsAccepted : Config → ℕ × ℕ → Type 0
IsAccepted c (width, height) =
    (c.min_image_size ≤ width)
    × (c.min_image_size ≤ height)
    × (width ≤ c.max_image_dimension)
    × (height ≤ c.max_image_dimension)

pub split_image_into_tiles_cases :
    (max_tiles w h ts : ℕ)
    → 0 < ts
    → (split_image_into_tiles max_tiles w h ts ≡ raise value_error)
      ⊎ (split_image_into_tiles max_tiles w h ts ≡ ok (layout w h ts))
unfolding split_image_into_tiles
split_image_into_tiles_cases max_tiles w h ts pos =
    let e : (ts == 0) ≡ false = ground (arith, pos) in
    elim (Bool-cases (ltb max_tiles (((w + ts - 1) / ts) * ((h + ts - 1) / ts)))) [
      | inl many ↦ inl (rw (e, many) refl)
      | inr few ↦ inr (rw (e, few) refl)
    ]

-- A call on the file has raised while the file, or a part of it, was on the disk.
pub data HasFailed (out : Outside) : Type 0 where
  save_failed : out.save ≡ partly_stored → HasFailed out
  open_failed : (e : Error) → out.header ≡ raise e → HasFailed out
  imread_failed : (e : Error) → out.image ≡ raise e → HasFailed out
  remove_failed : (e : Error) → out.remove ≡ raise e → HasFailed out

module _ (R : Redis) (d : ℕ) (c : Config) (out : Outside) where
  open R use {Server, entry}

  -- The job that the upload made: it waits for all tiles of the layout of the image.
  pub record IsStarted (s : Server) : Type 0 where
    pub size : ℕ × ℕ
    pub read : out.image ≡ ok (some size)
    pub accepted : IsAccepted c size
    pub waiting :
        HoldsJob R d out.job_id (length (layout size.0 size.1 c.tile_size)) Status.processing s

  -- The server is as it was, and nothing is sent.
  abbrev pub IsUntouched : Uploads R → Uploads R → Type 0
  IsUntouched w w' = (w'.server ≡ w.server) × (w'.sent ≡ w.sent)

  -- The upload with its file on the disk.
  abbrev pub saved_file : Uploads R → Uploads R
  saved_file w = record w { files = out.job_id ∷ w.files }

  -- Either the file is gone, and the upload is refused or started; or a call on the file has raised,
  -- and the file stays.
  abbrev pub Outcome : Uploads R → Uploads R × Response → Type 0
  Outcome w p =
      ((p.0.files ≡ w.files)
        × ((IsUntouched w p.0 × ((code : ℕ) × (p.1 ≡ refused code))) ⊎ IsStarted p.0.server))
      ⊎ (HasFailed out
          × (p.0.files ≡ out.job_id ∷ w.files)
          × IsUntouched w p.0
          × (p.1 ≡ refused 500))

  pub refused-Outcome : (w : Uploads R) (code : ℕ) → Outcome w (w, refused code)
  refused-Outcome w code = inl (refl, inl ((refl, refl), (code, refl)))

  pub left-Outcome : (w : Uploads R) → HasFailed out → Outcome w (saved_file w, refused 500)
  left-Outcome w h = inr (h, refl, (refl, refl), refl)

  -- What follows `os.remove` of the file.
  pub remove_then-Outcome :
      (w : Uploads R) (next : Uploads R → Uploads R × Response)
      → Outcome w (next (remove_file R out.job_id (saved_file w)))
      → Outcome w (remove_then R out.remove out.job_id (saved_file w) next)
  remove_then-Outcome w next h = go out.remove refl
    where
      go :
          (r : Result (Unit {0}))
          → out.remove ≡ r
          → Outcome w (remove_then R out.remove out.job_id (saved_file w) next)
      go (ok _) x = simp (x, remove_then) h
      go (raise e) x = simp (x, remove_then) (left-Outcome w (remove_failed e x))

  pub refuse-Outcome : (w : Uploads R) → Outcome w (refuse R out 400 (saved_file w))
  refuse-Outcome w =
      remove_then-Outcome w (λ w'. (w', refused 400))
        (rw (==-refl out.job_id) (inl (refl, inl ((refl, refl), (400, refl)))))

  accept_image-Outcome :
      (operation : Operation) (filename : String) (w : Uploads R)
      → 0 < c.tile_size
      → entry (job out.job_id) w.server ≡ missing
      → Outcome w (accept_image R c out operation filename (saved_file w))
  unfolding accept_image dispatch
  accept_image-Outcome operation filename w pos fresh = go out.image refl
    where
      go :
          (o : Result (Option (ℕ × ℕ)))
          → out.image ≡ o
          → Outcome w (accept_image R c out operation filename (saved_file w))
      go (raise e) x = simp (accept_image, x) (left-Outcome w (imread_failed e x))
      go (ok none) x = simp (accept_image, x) (refuse-Outcome w)
      go (ok (some (width, height))) x =
          elim (Bool-cases (is_too_small c (width, height) || is_too_large c (width, height))) [
            | inl wrong ↦ simp (accept_image, x, wrong) (refuse-Outcome w)
            | inr right ↦
                elim (split_image_into_tiles_cases c.max_tiles width height c.tile_size pos) [
                  | inl many ↦ simp (accept_image, x, right, many) (refuse-Outcome w)
                  | inr tiles ↦
                      simp (accept_image, x, right, tiles)
                        (remove_then-Outcome w _ (
                          simp (==-refl out.job_id) (
                            inl (
                              refl,
                              inr (record {
                                size = (width, height);
                                read = x;
                                accepted = ground (arith, right);
                                waiting =
                                    publish_tile_tasks-HoldsJob R d out.job_id
                                      (length (layout width height c.tile_size)) Status.processing
                                      out.publisher operation c.batch_size _ _
                                      (create_job-HoldsJob R d out.job_id out.now
                                        (new_job R c out operation filename width height
                                          (length (layout width height c.tile_size)))
                                        w.server fresh);
                              }),
                            ))))
                ]
          ]

  probe_image-Outcome :
      (operation : Operation) (filename : String) (w : Uploads R)
      → 0 < c.tile_size
      → entry (job out.job_id) w.server ≡ missing
      → Outcome w (probe_image R c out operation filename (saved_file w))
  unfolding probe_image
  probe_image-Outcome operation filename w pos fresh = go out.header refl
    where
      go :
          (r : Result (List ℕ))
          → out.header ≡ r
          → Outcome w (probe_image R c out operation filename (saved_file w))
      go (raise e) x = simp (x, probe_image) (left-Outcome w (open_failed e x))
      go (ok header) x =
          let probed = probe_image_dimensions_total header in
          elim (Bool-cases (probe_refuses c probed.0)) [
            | inl too_large ↦ simp (x, probed.1, probe_image, too_large) (refuse-Outcome w)
            | inr e ↦
                simp (x, probed.1, probe_image, e)
                  (accept_image-Outcome operation filename w pos fresh)
          ]

  -- With a positive tile size, and under a new job id that no key uses, whatever the request and
  -- the image are: unless a call on the file raises while it is on the disk, an upload leaves no file
  -- there, and it is refused, with nothing changed at the server and nothing sent, or the image has
  -- the allowed size and the server holds a job that waits for all tiles of its layout, readable also
  -- after the failures of its publication were recorded. If a save that raises left a part of the
  -- file, or `open`, OpenCV or `os.remove` raises, the upload may instead be refused with 500 and
  -- nothing changed at the server and nothing sent; then the file stays on the disk.
  pub upload_image-Outcome :
      (request : Request) (w : Uploads R)
      → 0 < c.tile_size
      → entry (job out.job_id) w.server ≡ missing
      → Outcome w (upload_image R c out request w)
  unfolding upload_image
  upload_image-Outcome request w pos fresh = elim (Bool-cases (c.is_operation request.operation)) [
    | inr unknown ↦ simp (unknown, upload_image) (refused-Outcome w 400)
    | inl known ↦ elim (Option-cases (extension_of c request.file)) [
      | inl bad ↦ simp (known, bad, upload_image) (refused-Outcome w 400)
      | inr named ↦ elim (Bool-cases (out.active_workers == 0)) [
        | inl idle ↦ simp (known, named.1, idle, upload_image) (refused-Outcome w 503)
        | inr busy ↦ saved known named.0 named.1 busy out.save refl
      ]
    ]
  ]
    where
      saved :
          c.is_operation request.operation ≡ true
          → (filename : String) → extension_of c request.file ≡ some filename
          → (out.active_workers == 0) ≡ false
          → (r : Saved) → out.save ≡ r
          → Outcome w (upload_image R c out request w)
      saved known filename named busy nothing_stored e =
          simp (known, named, busy, e, upload_image) (refused-Outcome w 500)
      saved known filename named busy partly_stored e =
          simp (known, named, busy, e, upload_image) (left-Outcome w (save_failed e))
      saved known filename named busy stored e =
          simp (known, named, busy, e, upload_image)
            (probe_image-Outcome request.operation filename w pos fresh)
