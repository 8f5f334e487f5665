-- ===== src/Engine/Detect/Batching.antt =====
-- The two ways of inference/engine.py to run the detector on a batch.
use mathlib.Core.List.{append_assoc}
use dip.Prelude.{
  ℕ, ◌+◌, ◌≡◌, refl, sym, List, [], ◌∷◌, ◌++◌, Bool, true, false, Result, ok, length, length-append,
  get_elem?-append, map,
}
use dip.Redis.{Detection}
use dip.Engine.{
  each, enumerate_from, Floats, Anchor, Detector, run_one, run_model, postprocess, postprocess_at,
  detect_batch,
}

module _ (F : Floats) {Image Tensor : Type 0} (m : Detector F Image Tensor)
    (row : Tensor → List (Anchor F)) where
  -- The detections of an image by itself.
  abbrev pub detect_alone : Image → Result (List Detection)
  detect_alone image = postprocess F m.nms (row (m.tensor_of image)) (m.letterbox_of image)

  abbrev rows : List Image → List (List (Anchor F))
  rows images = map row (map m.tensor_of images)

  each-postprocess_at :
      (images : List Image) (i : ℕ) (before : List (List (Anchor F)))
      → length before ≡ i
      → each (postprocess_at F m (before ++ rows images)) (enumerate_from i images)
        ≡ each detect_alone images
  unfolding postprocess_at
  each-postprocess_at [] i before e = refl
  each-postprocess_at (image ∷ images) i before e =
      let first = row (m.tensor_of image) in
      let rest : each (postprocess_at F m (before ++ first ∷ rows images))
            (enumerate_from (length before + 1) images)
          ≡ each detect_alone images =
        simp (append_assoc) at (
          each-postprocess_at images (length before + 1) (before ++ first ∷ [])
            (length-append before (first ∷ []))) in
      rw (sym e, get_elem?-append before first (rows images), rest) refl

  module _
      (rowwise : (t : Tensor) (ts : List Tensor) → m.run (t ∷ ts) ≡ ok (map row (t ∷ ts))) where
    each-run_one : (ts : List Tensor) → each (run_one F m) ts ≡ ok (map row ts)
    unfolding run_one
    each-run_one [] = refl
    each-run_one (t ∷ ts) = rw (rowwise t [], each-run_one ts) refl

    run_model-rows :
        (batched_ok : Bool) (t : Tensor) (ts : List Tensor)
        → run_model F m batched_ok (t ∷ ts) ≡ ok (map row (t ∷ ts))
    unfolding run_model
    run_model-rows true t ts = rowwise t ts
    run_model-rows false t ts = each-run_one (t ∷ ts)

    -- If the model answers a batch row by row, then a batch of images, which has at least one, gets
    -- the detections that each image gets by itself, in order, or the exception of the first that
    -- raises one, whether the model takes a batch or has to be called for each image.
    pub detect_batch-alone :
        (batched_ok : Bool) (image : Image) (images : List Image)
        → detect_batch F m batched_ok (image ∷ images) ≡ each detect_alone (image ∷ images)
    unfolding detect_batch
    detect_batch-alone batched_ok image images =
        rw (run_model-rows batched_ok (m.tensor_of image) (map m.tensor_of images))
          (each-postprocess_at (image ∷ images) 0 [] refl)
