-- ===== src/Upload/Oversized.antt =====
-- An upload of master/app.py whose header states a size over the limit.
use Prim.Native.String.{String}
use dip.Prelude.{
  ℕ, ◌<◌, ◌≡◌, refl, ◌∙◌, ap, List, ◌∷◌, some, true, false, ◌==◌, Result, ok, raise, Error, All,
  arith, inl, inr, ◌⊎◌, Bool-cases, Option-cases, ==-refl, pos,
}
use dip.Imaging.Probe.{is_frame, probe_image_dimensions}
use dip.Imaging.Probe.Frames.{
  Chunk, IsSkipped, Frame, print_jpeg, print_png, probe_image_dimensions-print_jpeg,
  probe_image_dimensions-print_png,
}
use dip.Redis.{Redis, Operation}
use dip.Upload.{
  Config, Request, Outside, Response, refused, probe_refuses, extension_of, Uploads, probe_image,
  upload_image, remove_then, refuse, Saved, stored, partly_stored, nothing_stored,
}

-- A header that states a size: that of a PNG file, or of a JPEG file with any chunks before its
-- frame.
pub data Declares (width height : ℕ) (header : List ℕ) : Type 0 where
  png : (rest : List ℕ) → header ≡ print_png width height rest → Declares width height header
  jpeg :
      (cs : List Chunk) (f : Frame) (rest : List ℕ)
      → All IsSkipped cs
      → is_frame f.marker ≡ true
      → f.width ≡ width
      → f.height ≡ height
      → header ≡ print_jpeg cs f rest
      → Declares width height header

probe-Declares :
    (width height : ℕ) (header : List ℕ)
    → Declares width height header
    → probe_image_dimensions header ≡ ok (some (pos width, height))
probe-Declares width height header (png rest e) =
    ap probe_image_dimensions e ∙ probe_image_dimensions-print_png width height rest
probe-Declares width height header (jpeg cs f rest k m w h e) =
    ap probe_image_dimensions e ∙ probe_image_dimensions-print_jpeg cs f rest k m ∙ cc (w, h)

module _ (R : Redis) (c : Config) (out : Outside) where
  -- A part of the file was stored and the save raised, or `os.remove` raises.
  pub data IsStuck : Type 0 where
    save_stuck : out.save ≡ partly_stored → IsStuck
    remove_stuck : (e : Error) → out.remove ≡ raise e → IsStuck

  -- Nothing is changed, and the answer is an error; or the file could not be stored or removed, and
  -- nothing but the file is left.
  abbrev pub IsRefused : Uploads R → Uploads R × Response → Type 0
  IsRefused w p =
      ((p.0 ≡ w) × ((code : ℕ) × (p.1 ≡ refused code)))
      ⊎ (IsStuck × (p.0 ≡ record w { files = out.job_id ∷ w.files }) × (p.1 ≡ refused 500))

  refuse-IsRefused :
      (w : Uploads R) → IsRefused w (refuse R out 400 (record w { files = out.job_id ∷ w.files }))
  refuse-IsRefused w = go out.remove refl
    where
      go :
          (r : Result (Unit {0}))
          → out.remove ≡ r
          → IsRefused w (refuse R out 400 (record w { files = out.job_id ∷ w.files }))
      go (ok _) x = simp (x, remove_then, ==-refl out.job_id) (inl (refl, (400, refl)))
      go (raise e) x = simp (x, remove_then) (inr (remove_stuck e x, refl, refl))

  probe_image-IsRefused :
      (width height : ℕ) (header : List ℕ) (operation : Operation) (filename : String)
      (w : Uploads R)
      → out.header ≡ ok header
      → Declares width height header
      → (c.max_image_dimension < width) ⊎ (c.max_image_dimension < height)
      → IsRefused w
          (probe_image R c out operation filename (record w { files = out.job_id ∷ w.files }))
  unfolding probe_image
  probe_image-IsRefused width height header operation filename w read declared over =
      let too_large : probe_refuses c (some (pos width, height)) ≡ true = ground (arith, over) in
      simp (read, probe-Declares width height header declared, probe_image, too_large)
        (refuse-IsRefused w)

  -- An upload of a PNG or JPEG file whose header can be read and states a side over the limit is
  -- refused, whatever the request is and whatever OpenCV would say of the file: the server is as it
  -- was, nothing is sent, and no file stays on the disk, unless a save that raises left a part of it
  -- or `os.remove` raises.
  pub upload_image-IsRefused :
      (width height : ℕ) (header : List ℕ) (request : Request) (w : Uploads R)
      → out.header ≡ ok header
      → Declares width height header
      → (c.max_image_dimension < width) ⊎ (c.max_image_dimension < height)
      → IsRefused w (upload_image R c out request w)
  unfolding upload_image
  upload_image-IsRefused width height header request w read declared over =
      elim (Bool-cases (c.is_operation request.operation)) [
        | inr unknown ↦ simp (unknown, upload_image) (inl (refl, (400, refl)))
        | inl known ↦ elim (Option-cases (extension_of c request.file)) [
          | inl bad ↦ simp (known, bad, upload_image) (inl (refl, (400, refl)))
          | inr named ↦ elim (Bool-cases (out.active_workers == 0)) [
            | inl idle ↦ simp (known, named.1, idle, upload_image) (inl (refl, (503, refl)))
            | inr busy ↦ saved known named.0 named.1 busy out.save refl
          ]
        ]
      ]
    where
      saved :
          c.is_operation request.operation ≡ true
          → (filename : String) → extension_of c request.file ≡ some filename
          → (out.active_workers == 0) ≡ false
          → (r : Saved) → out.save ≡ r
          → IsRefused w (upload_image R c out request w)
      saved known filename named busy nothing_stored e =
          simp (known, named, busy, e, upload_image) (inl (refl, (500, refl)))
      saved known filename named busy partly_stored e =
          simp (known, named, busy, e, upload_image) (inr (save_stuck e, refl, refl))
      saved known filename named busy stored e =
          simp (known, named, busy, e, upload_image)
            (probe_image-IsRefused width height header request.operation filename w read declared
              over)
