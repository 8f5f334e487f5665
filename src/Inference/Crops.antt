-- ===== src/Inference/Crops.antt =====
-- What inference/main.py does with the boxes of the detections and with the labels of their crops.
use Prim.Native.String.{String}
use dip.Prelude.{
  ℕ, ◌+◌, ◌/◌, List, [], ◌∷◌, Option, none, some, Bool, true, false, leb, if◌then◌else◌, ℤ, pos,
  negsuc, neg,
}
use dip.Redis.{Detection}

-- `int` of a coordinate in tenths, towards zero.
abbrev pub whole_of : ℤ → ℤ
whole_of (pos n) = pos (n / 10)
whole_of (negsuc n) = neg (pos ((n + 1) / 10))

abbrev pub leb_z : ℤ → ℤ → Bool
leb_z (pos a) (pos b) = leb a b
leb_z (pos a) (negsuc b) = false
leb_z (negsuc a) (pos b) = true
leb_z (negsuc a) (negsuc b) = leb b a

abbrev pub max_z : ℤ → ℤ → ℤ
max_z a b = if leb_z a b then b else a

abbrev pub min_z : ℤ → ℤ → ℤ
min_z a b = if leb_z a b then a else b

-- The labels for the detections of a task, as far as there are any, and the labels that are left.
pub label_task : List Detection → List (String × ℕ) → List Detection × List (String × ℕ)
label_task [] labels = ([], labels)
label_task (det ∷ dets) [] = (det ∷ dets, [])
label_task (det ∷ dets) ((label, conf) ∷ labels) =
    let (rest, left) = label_task dets labels in
    (record det { classify_label = some label; classify_confidence = some conf } ∷ rest, left)

abbrev pub label_results :
    List (Option (List Detection)) → List (String × ℕ) → List (Option (List Detection))
label_results [] labels = []
label_results (none ∷ results) labels = none ∷ label_results results labels
label_results (some dets ∷ results) labels =
    let (named, left) = label_task dets labels in some named ∷ label_results results left
