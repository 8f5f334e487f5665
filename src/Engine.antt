-- ===== src/Engine.antt =====
-- inference/engine.py: what the two wrappers do around their models.
pub mod Names
pub mod Classify
pub mod Detect
use Prim.Native.String.{String}
use dip.Prelude.{
  ℕ, zero, suc, ◌+◌, ◌*◌, List, [], ◌∷◌, Option, none, some, Bool, true, false, ◌&&◌, ltb, leb,
  Result, ok, raise, index_error, value_error, ◌>>=◌, if◌then◌else◌, length, get_elem?, replicate,
  map, keep_if, ℤ,
}
use dip.Redis.{Box, Detection}
use dip.Engine.Names.{coco_classes, imagenet_classes}

-- `xs[i]` of a list or an array.
abbrev pub elem_or_raise {ℓ} : {A : Type ℓ} → Option A → Result A
elem_or_raise none = raise index_error
elem_or_raise (some a) = ok a

-- `enumerate(xs)`, from a start.
abbrev pub enumerate_from {ℓ} : {A : Type ℓ} → ℕ → List A → List (ℕ × A)
enumerate_from i [] = []
enumerate_from i (x ∷ xs) = (i, x) ∷ enumerate_from (i + 1) xs

-- `xs[i] = a` for an index in range.
abbrev pub set_elem {ℓ} : {A : Type ℓ} → ℕ → A → List A → List A
set_elem i a [] = []
set_elem zero a (x ∷ xs) = a ∷ xs
set_elem (suc i) a (x ∷ xs) = x ∷ set_elem i a xs

-- An ONNX session, which answers a batch.
abbrev pub Session : Type 0 → Type 0 → Type 0
Session Tensor Output = List Tensor → Result (List Output)

-- The classifier's work on an array: its shape, `resize` with the colours and the normalization, and
-- of an output the `argmax` of the softmax with its probability, in units of 1 / 10000.
pub record Classifier (Crop Tensor Logits : Type 0) : Type 0 where
  pub rows : Crop → ℕ
  pub columns : Crop → ℕ
  pub tensor_of : Crop → Tensor
  pub run : Session Tensor Logits
  pub top_of : Logits → ℕ × ℕ

abbrev pub Label : Type 0
Label = String × ℕ

abbrev pub unknown_label : Label
unknown_label = ("unknown", 0)

module _ {Crop Tensor Logits : Type 0} (m : Classifier Crop Tensor Logits) where
  -- `c.size > 0 and c.shape[0] > 0 and c.shape[1] > 0`; a crop has three channels.
  abbrev pub is_valid : Crop → Bool
  is_valid c = ltb 0 (m.rows c * m.columns c * 3) && (ltb 0 (m.rows c) && ltb 0 (m.columns c))

  abbrev pub valid_crops : List Crop → List (ℕ × Crop)
  valid_crops crops = keep_if (λ p. is_valid p.1) (enumerate_from 0 crops)

  -- The loop over the valid crops, from the row `batch_i` of the outputs on.
  pub write_labels : ℕ → List (ℕ × Crop) → List Logits → List Label → Result (List Label)
  write_labels batch_i [] outputs results = ok results
  write_labels batch_i ((orig_i, crop) ∷ valid) outputs results = do
    logits ← elem_or_raise (get_elem? outputs batch_i)
    label ← elem_or_raise (get_elem? imagenet_classes (m.top_of logits).0)
    write_labels (batch_i + 1) valid outputs (set_elem orig_i (label, (m.top_of logits).1) results)

  pub classify_valid : List Crop → List (ℕ × Crop) → Result (List Label)
  unfolding write_labels
  classify_valid crops [] = ok (replicate (length crops) unknown_label)
  classify_valid crops (v ∷ valid) = do
    outputs ← m.run (map (λ p. m.tensor_of p.1) (v ∷ valid))
    write_labels 0 (v ∷ valid) outputs (replicate (length crops) unknown_label)

  -- `ClassificationEngine.infer_batch`
  pub classify_batch : List Crop → Result (List Label)
  unfolding classify_valid
  classify_batch crops = classify_valid crops (valid_crops crops)

-- The arithmetic of floats. `tenths` is `round(x, 1)`.
pub record Floats : Type 1 where
  pub Number : Type 0
  pub minus : Number → Number → Number
  pub plus : Number → Number → Number
  pub over : Number → Number → Number
  pub two : Number
  pub tenths : Number → ℤ

-- DETECT_CONF_THRESHOLD in units of 1 / 10000, as every confidence.
abbrev pub detect_conf_threshold : ℕ
detect_conf_threshold = 4_000

-- `np.argmax` with the value there: the first of the highest scores. `i` is the next index.
abbrev pub argmax_from : ℕ → ℕ → ℕ → List ℕ → ℕ × ℕ
argmax_from best score i [] = (best, score)
argmax_from best score i (x ∷ xs) =
    if ltb score x then argmax_from i x (i + 1) xs else argmax_from best score (i + 1) xs

abbrev pub argmax : List ℕ → Result (ℕ × ℕ)
argmax [] = raise value_error
argmax (x ∷ xs) = ok (argmax_from 0 x 1 xs)

-- A comprehension whose items may raise.
abbrev pub each {ℓ κ} : {A : Type ℓ} {B : Type κ} → (A → Result B) → List A → Result (List B)
each f [] = ok []
each f (x ∷ xs) = do y ← f x; ys ← each f xs; ok (y ∷ ys)

module _ (F : Floats) where
  open F use {Number, minus, plus, over, two, tenths}

  -- A row of `output.T`.
  pub record Anchor : Type 0 where
    pub cx : Number
    pub cy : Number
    pub w : Number
    pub h : Number
    pub scores : List ℕ

  -- An anchor with the class of its highest score and that score.
  pub record Scored : Type 0 where
    pub anchor : Anchor
    pub class_id : ℕ
    pub confidence : ℕ

  pub score : Anchor → Result Scored
  score a = do
    best ← argmax a.scores
    ok (record { anchor = a; class_id = best.0; confidence = best.1 })

  -- A box as NMSBoxes takes it.
  abbrev pub Xywh : Type 0
  Xywh = Number × Number × Number × Number

  abbrev pub xywh_of : Scored → Xywh
  xywh_of s = let a = s.anchor in (minus a.cx (over a.w two), minus a.cy (over a.h two), a.w, a.h)

  -- The scale and the padding of the letterbox.
  pub record Letterbox : Type 0 where
    pub scale : Number
    pub left : Number
    pub top : Number

  -- The box in the coordinates of the image.
  abbrev pub undo_letterbox : Letterbox → Xywh → Box
  undo_letterbox l (x, y, w, h) = record {
    x1 = tenths (over (minus x l.left) l.scale);
    y1 = tenths (over (minus y l.top) l.scale);
    x2 = tenths (over (minus (plus x w) l.left) l.scale);
    y2 = tenths (over (minus (plus y h) l.top) l.scale);
  }

  abbrev pub detection_of : Letterbox → Scored → String → Detection
  detection_of l s name = record {
    class_name = name;
    confidence = s.confidence;
    classify_label = none;
    classify_confidence = none;
    box = undo_letterbox l (xywh_of s);
  }

  -- The body of the loop over the indices.
  pub report : Letterbox → List Scored → ℕ → Result Detection
  report l kept idx = do
    s ← elem_or_raise (get_elem? kept idx)
    name ← elem_or_raise (get_elem? coco_classes s.class_id)
    ok (detection_of l s name)

  -- `cv2.dnn.NMSBoxes` with its two thresholds: the indices that it keeps.
  abbrev pub NmsBoxes : Type 0
  NmsBoxes = List Xywh → List ℕ → List ℕ

  pub report_kept : NmsBoxes → Letterbox → List Scored → Result (List Detection)
  unfolding report
  report_kept nms l [] = ok []
  report_kept nms l (s ∷ kept) =
      each (report l (s ∷ kept))
        (nms (map xywh_of (s ∷ kept)) (map (λ (t : Scored). t.confidence) (s ∷ kept)))

  abbrev pub is_confident : Scored → Bool
  is_confident s = leb detect_conf_threshold s.confidence

  -- `_postprocess`
  pub postprocess : NmsBoxes → List Anchor → Letterbox → Result (List Detection)
  unfolding score report_kept
  postprocess nms preds l = do
    scored ← each score preds
    report_kept nms l (keep_if is_confident scored)

  -- The detector's work on an image: the letterbox with the colours, and the session.
  pub record Detector (Image Tensor : Type 0) : Type 0 where
    pub tensor_of : Image → Tensor
    pub letterbox_of : Image → Letterbox
    pub run : Session Tensor (List Anchor)
    pub nms : NmsBoxes

  module _ {Image Tensor : Type 0} (m : Detector Image Tensor) where
    -- `session.run(...)[0][0]` for one image.
    pub run_one : Tensor → Result (List Anchor)
    run_one t = do outputs ← m.run (t ∷ []); elem_or_raise (get_elem? outputs 0)

    -- `np.stack` raises on no array.
    pub run_model : Bool → List Tensor → Result (List (List Anchor))
    unfolding run_one
    run_model batched_ok [] = raise value_error
    run_model true (t ∷ tensors) = m.run (t ∷ tensors)
    run_model false (t ∷ tensors) = each run_one (t ∷ tensors)

    pub postprocess_at : List (List Anchor) → ℕ × Image → Result (List Detection)
    unfolding postprocess
    postprocess_at outputs (i, image) = do
      output ← elem_or_raise (get_elem? outputs i)
      postprocess m.nms output (m.letterbox_of image)

    -- `DetectionEngine.infer_batch`
    pub detect_batch : Bool → List Image → Result (List (List Detection))
    unfolding run_model postprocess_at
    detect_batch batched_ok images = do
      outputs ← run_model batched_ok (map m.tensor_of images)
      each (postprocess_at outputs) (enumerate_from 0 images)
