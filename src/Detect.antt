-- ===== src/Detect.antt =====
-- master/ml_routes.py: the detections of a job, merged across its tiles, and the status of the job.
pub mod Merge
pub mod Report
pub mod Images
use Prim.Native.String.{String}
use dip.Prelude.{
  ℕ, zero, suc, ◌+◌, ◌*◌, List, [], ◌∷◌, ◌++◌, Option, none, some, Bool, true, false, Result, ok,
  raise, value_error, ◌>>=◌, if◌then◌else◌, length, get_elem?, map, ℤ, pos, neg, ◌+ℤ◌, string_eq,
}
use dip.Redis.{Redis, Box, Detection, TileInfo, Payload, detections, result_blob_key, Status, Value}
use dip.Jobstore.{Job, get_job, get_tile_results, get_tile_latencies_ms}

-- `by_class.setdefault(det['class_name'], []).append(det)`
abbrev pub Classes : Type 0
Classes = List (String × List Detection)

pub add_to_class : Detection → Classes → Classes
add_to_class det [] = (det.class_name, det ∷ []) ∷ []
add_to_class det ((c, dets) ∷ classes) =
    if string_eq c det.class_name
    then (c, dets ++ det ∷ []) ∷ classes
    else (c, dets) ∷ add_to_class det classes

-- The first loop.
pub group_by_class : List Detection → Classes → Classes
unfolding add_to_class
group_by_class [] classes = classes
group_by_class (det ∷ dets) classes = group_by_class dets (add_to_class det classes)

-- The left upper corner, the width and the height, as NMSBoxes takes them.
abbrev pub box_xywh : Detection → ℤ × ℤ × ℤ × ℤ
box_xywh d = (d.box.x1, d.box.y1, d.box.x2 +ℤ neg d.box.x1, d.box.y2 +ℤ neg d.box.y1)

-- `cv2.dnn.NMSBoxes` with its two thresholds: the indices that it keeps.
abbrev pub Nms : Type 0
Nms = List (ℤ × ℤ × ℤ × ℤ) → List ℕ → List ℕ

abbrev pub item_or_raise : Option Detection → Result Detection
item_or_raise none = raise value_error
item_or_raise (some d) = ok d

-- `kept.append(dets[idx])` for each index.
pub pick : List ℕ → List Detection → Result (List Detection)
pick [] dets = ok []
pick (idx ∷ indices) dets = do
  det ← item_or_raise (get_elem? dets idx)
  rest ← pick indices dets
  ok (det ∷ rest)

-- The body of the second loop.
pub keep_class : Nms → List Detection → Result (List Detection)
unfolding pick
keep_class nms (det ∷ []) = ok (det ∷ [])
keep_class nms dets =
    pick (nms (map box_xywh dets) (map (λ (d : Detection). d.confidence) dets)) dets

pub keep_classes : Nms → Classes → Result (List Detection)
unfolding keep_class
keep_classes nms [] = ok []
keep_classes nms ((c, dets) ∷ classes) = do
  kept ← keep_class nms dets
  rest ← keep_classes nms classes
  ok (kept ++ rest)

-- `_cross_tile_nms`; for no detections it returns at once, and so does the loop.
pub cross_tile_nms : Nms → List Detection → Result (List Detection)
unfolding group_by_class keep_classes
cross_tile_nms nms dets = keep_classes nms (group_by_class dets [])

-- A coordinate in tenths of a pixel, moved by whole pixels.
abbrev pub shift : ℤ → ℕ → ℤ
shift a n = a +ℤ pos (10 * n)

-- The detection in the coordinates of the whole image.
abbrev pub place : TileInfo → Detection → Detection
place t det = record det {
  box = record {
    x1 = shift det.box.x1 t.x;
    y1 = shift det.box.y1 t.y;
    x2 = shift det.box.x2 t.x;
    y2 = shift det.box.y2 t.y;
  };
}

-- `tile_info.get('detections', [])`
abbrev pub detections_of : Payload → List Detection
detections_of (detections dets) = dets
detections_of (result_blob_key key) = []

-- `counts[c] = counts.get(c, 0) + 1`
abbrev pub Counts : Type 0
Counts = List (String × ℕ)

pub count_class : String → Counts → Counts
count_class c [] = (c, 1) ∷ []
count_class c ((d, n) ∷ counts) =
    if string_eq d c then (d, n + 1) ∷ counts else (d, n) ∷ count_class c counts

pub count_classes : List Detection → Counts → Counts
unfolding count_class
count_classes [] counts = counts
count_classes (det ∷ dets) counts = count_classes dets (count_class det.class_name counts)

-- `job_data['status'] in (...)`
abbrev pub is_finished : Status → Bool
is_finished Status.completed = true
is_finished Status.ready_for_reconstruction = true
is_finished Status.degraded = true
is_finished _ = false

pub record Merged : Type 0 where
  pub detections : List Detection
  pub detection_counts : Counts
  pub total_detections : ℕ

pub record DetectStatus : Type 0 where
  pub status : Status
  pub progress : ℕ
  pub received_tiles : ℕ
  pub expected_tiles : ℕ
  pub tile_latencies : List Value
  pub merged : Option Merged

pub data Response : Type 0 where
  detect_status_of : DetectStatus → Response
  refused : ℕ → Response

-- `job_data['expected_tiles'] or 1`
abbrev pub or_one : ℕ → ℕ
or_one zero = 1
or_one (suc n) = suc n

pub report : List Detection → Merged
unfolding count_classes
report dets = record {
  detections = dets;
  detection_counts = count_classes dets [];
  total_detections = length dets;
}

module _ (R : Redis) where
  open R use {Server}

  abbrev pub placed : Option TileInfo → List Detection
  placed none = []
  placed (some t) = map (place t) (detections_of t.payload)

  -- The loop over `tile_results.values()`; `shown` is the order in which HGETALL shows the tiles.
  pub all_detections : ℕ → Server → List ℕ → List Detection
  all_detections j s [] = []
  all_detections j s (t ∷ shown) = placed (get_tile_results R j s t) ++ all_detections j s shown

  -- What is merged if the job is finished.
  pub merge_tiles : Nms → List ℕ → ℕ → Server → Bool → Result (Option Merged)
  unfolding all_detections report cross_tile_nms
  merge_tiles nms shown j s false = ok none
  merge_tiles nms shown j s true =
      cross_tile_nms nms (all_detections j s shown) >>= λ dets. ok (some (report dets))

  -- `detect_status`; `percent` is the floating-point arithmetic of the progress.
  pub detect_status : Nms → (ℕ → ℕ → ℕ) → ℕ → List ℕ → ℕ → Server → Response
  unfolding merge_tiles
  detect_status nms percent default_tile_size shown j s = elim (get_job R default_tile_size j s) [
    | raise e ↦ refused 500
    | ok none ↦ refused 404
    | ok (some found) ↦ elim (merge_tiles nms shown j s (is_finished found.status)) [
      | raise e ↦ refused 500
      | ok merged ↦ detect_status_of (record {
        status = found.status;
        progress = percent found.results_count (or_one found.expected_tiles);
        received_tiles = found.results_count;
        expected_tiles = or_one found.expected_tiles;
        tile_latencies = get_tile_latencies_ms R j s;
        merged = merged;
      })
    ]
  ]
