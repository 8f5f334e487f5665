-- ===== src/Tests/Engine.antt =====
-- The theorems on the wrappers of the models, at concrete inputs.
use dip.Prelude.{ℕ, ◌*◌, ◌-◌, ◌+◌, ◌/◌, ◌≡◌, refl, List, [], ◌∷◌, ok, map, arith, pos, false}
use dip.Redis.{Detection}
use dip.Engine.{
  Classifier, classify_batch, Floats, Anchor, Scored, Letterbox, each, postprocess, NmsBoxes,
  Detector, detect_batch,
}
use dip.Engine.Classify.{label_alone, classify_batch-alone}
use dip.Engine.Detect.{
  IsScoring, AreReported, IsWithin, over_threshold, indices_of, postprocess-AreReported,
}
use dip.Engine.Detect.Batching.{detect_alone, detect_batch-alone}

-- A crop is its shape, and the answer the number of its rows.
abbrev by_rows : Classifier (ℕ × ℕ) ℕ ℕ
by_rows = record {
  rows = λ c. c.0;
  columns = λ c. c.1;
  tensor_of = λ c. c.0;
  run = λ ts. ok (map (λ t. t / 2) ts);
  top_of = λ logits. (7, logits);
}

abbrev three_crops : List (ℕ × ℕ)
three_crops = (10, 20) ∷ (0, 20) ∷ (8, 8) ∷ []

classify_batch-alone_example :
    classify_batch by_rows three_crops ≡ ok (map (label_alone by_rows (λ t. t / 2)) three_crops)
classify_batch-alone_example =
    classify_batch-alone by_rows (λ t. t / 2) (λ logits. omega arith) (λ t ts. refl) three_crops

abbrev naturals : Floats
naturals = record {
  Number = ℕ;
  minus = λ a b. a - b;
  plus = λ a b. a + b;
  over = λ a b. a / b;
  two = 2;
  tenths = λ a. pos (10 * a);
}

abbrev anchor_of : ℕ → Anchor naturals
anchor_of s = record { cx = 100; cy = 200; w = 50; h = 40; scores = 10 ∷ s ∷ 20 ∷ [] }

abbrev two_anchors : List (Anchor naturals)
two_anchors = anchor_of 7_000 ∷ anchor_of 3_000 ∷ []

abbrev whole : Letterbox naturals
whole = record { scale = 2; left = 0; top = 10 }

-- It keeps the first box.
abbrev keep_first : NmsBoxes naturals
keep_first [] cs = []
keep_first (b ∷ boxes) cs = 0 ∷ []

keep_first-IsWithin : IsWithin naturals keep_first
keep_first-IsWithin [] cs = tt
keep_first-IsWithin (b ∷ boxes) cs = (omega arith, tt)

postprocess-AreReported_example :
    (scored : List (Scored naturals)) × (ds : List Detection) × IsScoring naturals two_anchors
      scored
    × (postprocess naturals keep_first two_anchors whole ≡ ok ds)
    × AreReported naturals whole
        (over_threshold naturals scored)
        (indices_of naturals keep_first (over_threshold naturals scored))
        ds
postprocess-AreReported_example =
    postprocess-AreReported naturals whole keep_first two_anchors keep_first-IsWithin
      ((omega arith, omega arith), ((omega arith, omega arith), tt))

abbrev detector : Detector naturals ℕ ℕ
detector = record {
  tensor_of = λ image. image * 1_000;
  letterbox_of = λ image. whole;
  run = λ ts. ok (map (λ t. anchor_of t ∷ []) ts);
  nms = keep_first;
}

detect_batch-alone_example :
    detect_batch naturals detector false (7 ∷ 3 ∷ [])
    ≡ each (detect_alone naturals detector (λ t. anchor_of t ∷ [])) (7 ∷ 3 ∷ [])
detect_batch-alone_example =
    detect_batch-alone naturals detector (λ t. anchor_of t ∷ []) (λ t ts. refl) false 7 (3 ∷ [])
