-- ===== src/Detect/Report.antt =====
-- The counts of /detect/status of master/ml_routes.py.
use Prim.Native.String.{String}
use dip.Prelude.{
  Bool, ℕ, ◌+◌, ◌*◌, ◌≡◌, ◌⊎◌, ◌++◌, map, pos, ◌+ℤ◌, refl, sym, ap, ◌∙◌, List, [], ◌∷◌, Option,
  none, some, true, false, if◌then◌else◌, length, keep_if, arith, inl, inr, Bool-cases, ok,
  string_eq, string_eq→eq,
}
use dip.Redis.{Redis, Detection, Status, TileInfo, Payload, detections, result_blob_key}
use dip.Jobstore.{Job, get_job, get_tile_latencies_ms, get_tile_results}
use dip.Detect.{
  Counts, Nms, count_class, count_classes, report, all_detections, merge_tiles, detect_status,
  DetectStatus, Merged, detect_status_of, is_finished, or_one, cross_tile_nms, placed, place,
  detections_of,
}
use dip.Detect.Merge.{is_class, IsWithin, cross_tile_nms-IsByClass}

-- The count of a class, 0 if there is none.
abbrev pub count_of : String → Counts → ℕ
count_of c [] = 0
count_of c ((d, n) ∷ counts) = if string_eq c d then n else count_of c counts

abbrev pub total : Counts → ℕ
total [] = 0
total ((d, n) ∷ counts) = n + total counts

count_of-count_class :
    (c d : String) (counts : Counts)
    → count_of c (count_class d counts) ≡ count_of c counts + (if string_eq c d then 1 else 0)
unfolding count_class
count_of-count_class c d [] = ground arith
count_of-count_class c d ((e, n) ∷ counts) = elim (Bool-cases (string_eq e d)) [
  | inl same ↦
      let e' : string_eq c d ≡ string_eq c e = ap (string_eq c) (sym (string_eq→eq e d same)) in
      elim (Bool-cases (string_eq c e)) [
        | inl h ↦ rw (same, e', h) refl
        | inr h ↦ rw (same, e', h) (omega arith)
      ]
  | inr other ↦ elim (Bool-cases (string_eq c e)) [
    | inl h ↦
        let e' : string_eq c d ≡ false = ap (λ u. string_eq u d) (string_eq→eq c e h) ∙ other in
        rw (other, h, e') (omega arith)
    | inr h ↦ rw (other, h) (count_of-count_class c d counts)
  ]
]

total-count_class : (d : String) (counts : Counts) → total (count_class d counts) ≡ total counts + 1
unfolding count_class
total-count_class d [] = omega arith
total-count_class d ((e, n) ∷ counts) = elim (Bool-cases (string_eq e d)) [
  | inl h ↦ rw h (omega arith)
  | inr h ↦ rw h (omega (arith, total-count_class d counts))
]

count_of-count_classes :
    (c : String) (dets : List Detection) (counts : Counts)
    → count_of c (count_classes dets counts)
      ≡ count_of c counts + length (keep_if (is_class c) dets)
unfolding count_classes
count_of-count_classes c [] counts = omega arith
count_of-count_classes c (det ∷ dets) counts = ground (
  arith,
  count_of-count_classes c dets (count_class det.class_name counts),
  count_of-count_class c det.class_name counts,
)

total-count_classes :
    (dets : List Detection) (counts : Counts)
    → total (count_classes dets counts) ≡ total counts + length dets
unfolding count_classes
total-count_classes [] counts = omega arith
total-count_classes (det ∷ dets) counts = omega (
  arith,
  total-count_classes dets (count_class det.class_name counts),
  total-count_class det.class_name counts,
)

-- Each class is counted as often as it is listed, and the counts add up to the total.
pub record IsReport (m : Merged) : Type 0 where
  pub counted :
      (c : String) → count_of c m.detection_counts ≡ length (keep_if (is_class c) m.detections)
  pub summed : total m.detection_counts ≡ m.total_detections
  pub listed : m.total_detections ≡ length m.detections

report-IsReport : (dets : List Detection) → IsReport (report dets)
unfolding report
report-IsReport dets = record {
  counted = λ c. count_of-count_classes c dets [] ∙ omega arith;
  summed = total-count_classes dets [] ∙ omega arith;
  listed = refl;
}

-- The detection in the coordinates of the image: its tile lies at (x, y).
abbrev pub moved : ℕ → ℕ → Detection → Detection
moved x y det = record det {
  box = record {
    x1 = det.box.x1 +ℤ pos (10 * x);
    y1 = det.box.y1 +ℤ pos (10 * y);
    x2 = det.box.x2 +ℤ pos (10 * x);
    y2 = det.box.y2 +ℤ pos (10 * y);
  };
}

-- What a stored tile contributes.
abbrev pub seen_in : Option TileInfo → List Detection
seen_in none = []
seen_in (some t) = elim t.payload [
  | detections dets ↦ map (moved t.x t.y) dets
  | result_blob_key key ↦ []
]

-- A job whose detections are final: it is neither in processing nor of an unknown status.
abbrev pub is_final : Status → Bool
is_final Status.processing = false
is_final Status.ready_for_reconstruction = true
is_final Status.completed = true
is_final Status.degraded = true
is_final Status.unknown = false

is_finished-is_final : (st : Status) → is_finished st ≡ is_final st
is_finished-is_final Status.processing = refl
is_finished-is_final Status.ready_for_reconstruction = refl
is_finished-is_final Status.completed = refl
is_finished-is_final Status.degraded = refl
is_finished-is_final Status.unknown = refl

seen_in-placed : (R : Redis) (o : Option TileInfo) → placed R o ≡ seen_in o
seen_in-placed R none = refl
seen_in-placed R (some t) = go t.payload
  where
    go :
        (p : Payload)
        → map (place t) (detections_of p) ≡ (elim p as (λ x. List Detection) [
          | detections dets ↦ map (moved t.x t.y) dets
          | result_blob_key key ↦ []
        ])
    go (detections dets) = refl
    go (result_blob_key key) = refl

module _ (R : Redis) (nms : Nms) (percent : ℕ → ℕ → ℕ) (d : ℕ) (shown : List ℕ) where
  -- What the stored tiles of the job contribute, in the order in which they are shown.
  abbrev pub all_seen : ℕ → R.Server → List ℕ → List Detection
  all_seen j s [] = []
  all_seen j s (t ∷ ts) = seen_in (get_tile_results R j s t) ++ all_seen j s ts

  all_detections-all_seen :
      (j : ℕ) (s : R.Server) (ts : List ℕ) → all_detections R j s ts ≡ all_seen j s ts
  unfolding all_detections
  all_detections-all_seen j s [] = refl
  all_detections-all_seen j s (t ∷ ts) =
      rw (seen_in-placed R (get_tile_results R j s t), all_detections-all_seen j s ts) refl

  -- The detections are those of all stored tiles in the coordinates of the image, merged.
  pub record IsMerged (j : ℕ) (s : R.Server) (m : Merged) : Type 0 where
    pub merged : cross_tile_nms nms (all_seen j s shown) ≡ ok m.detections
    pub consistent : IsReport m

  -- The detections are in the answer exactly if the job is finished.
  abbrev pub IsAnswered : ℕ → R.Server → Status → Option Merged → Type 0
  IsAnswered j s status merged =
      ((is_final status ≡ true) × ((m : Merged) × (merged ≡ some m) × IsMerged j s m))
      ⊎ ((is_final status ≡ false) × (merged ≡ none))

  merge_tiles-IsAnswered :
      (j : ℕ) (s : R.Server) (status : Status)
      → IsWithin nms
      → (merged : Option Merged) × (merge_tiles R nms shown j s (is_finished status) ≡ ok merged)
        × IsAnswered j s status merged
  unfolding merge_tiles report
  merge_tiles-IsAnswered j s status w = elim (Bool-cases (is_finished status)) [
    | inr e ↦ rw e (none, refl, inr (refl, refl))
    | inl e ↦
        let (kept, merged, _) = cross_tile_nms-IsByClass nms w (all_detections R j s shown) in
        rw (e, merge_tiles, merged)
          (
            some (report kept),
            refl,
            inl (
              refl,
              (
                report kept,
                refl,
                record {
                  merged =
                      ap (cross_tile_nms nms) (sym (all_detections-all_seen j s shown)) ∙ merged;
                  consistent = report-IsReport kept;
                },
              ),
            ),
          )
  ]

  -- If NMSBoxes answers with indices of its boxes, the status of a job that can be read is answered:
  -- with the status of the job, and with the merged detections of all stored tiles, moved by the
  -- place of their tile, exactly if the job is ready, completed or degraded. Then each class is
  -- counted as often as it is listed, and the counts add up to the total.
  pub detect_status-IsAnswered :
      (j : ℕ) (s : R.Server) (found : Job)
      → IsWithin nms
      → get_job R d j s ≡ ok (some found)
      → (a : DetectStatus) × (detect_status R nms percent d shown j s ≡ detect_status_of a)
        × (a.status ≡ found.status)
        × (a.received_tiles ≡ found.results_count)
        × IsAnswered j s found.status a.merged
  unfolding detect_status
  detect_status-IsAnswered j s found w e =
      let (merged, computed, answered) = merge_tiles-IsAnswered j s found.status w in
      let a : DetectStatus = record {
        status = found.status;
        progress = percent found.results_count (or_one found.expected_tiles);
        received_tiles = found.results_count;
        expected_tiles = or_one found.expected_tiles;
        tile_latencies = get_tile_latencies_ms R j s;
        merged = merged;
      } in
      (a, simp (e, detect_status, computed) refl, refl, refl, answered)
