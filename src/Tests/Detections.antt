-- ===== src/Tests/Detections.antt =====
-- The theorems on the detection routes, at concrete inputs.
use dip.Prelude.{
  ℕ, ◌+◌, ◌*◌, ◌/◌, ◌≡◌, refl, List, [], ◌∷◌, ◌++◌, none, if◌then◌else◌, arith, pos, keep_if, true,
}
use dip.Redis.{
  job, tiles, Entry, missing, key_eq, put_all, Field, Value, Status, Detection, TileInfo, Payload,
}
use dip.Redis.Reference.{reference}
use dip.Jobstore.{new_job_mapping}
use dip.Jobstore.View.{HoldsJob, read_job, get_job-HoldsJob}
use dip.Jobstore.Tests.{two_tiles, two_tiles_entry}
use dip.Detect.{Nms, cross_tile_nms, DetectStatus, detect_status, detect_status_of}
use dip.Detect.Merge.{IsWithin, IsByClass, is_class, cross_tile_nms-IsByClass}
use dip.Detect.Report.{IsAnswered, detect_status-IsAnswered}

abbrev cat_at : ℕ → Detection
cat_at x = record {
  class_name = "cat";
  confidence = 900;
  classify_label = none;
  classify_confidence = none;
  box = record { x1 = pos x; y1 = pos 0; x2 = pos (x + 100); y2 = pos 80 };
}

abbrev dog : Detection
dog = record (cat_at 0) { class_name = "dog" }

-- Only the first box of a class is kept.
abbrev first_only : Nms
first_only [] confidences = []
first_only (b ∷ boxes) confidences = 0 ∷ []

first_only-IsWithin : IsWithin first_only
first_only-IsWithin [] confidences = tt
first_only-IsWithin (b ∷ boxes) confidences = (omega arith, tt)

abbrev seen : List Detection
seen = cat_at 300 ∷ dog ∷ cat_at 310 ∷ []

cross_tile_nms-IsByClass_example :
    IsByClass first_only first_only-IsWithin
      (λ c. keep_if (is_class c) seen)
      (cross_tile_nms first_only seen)
cross_tile_nms-IsByClass_example = cross_tile_nms-IsByClass first_only first_only-IsWithin seen

abbrev done_entry : Entry
done_entry = record two_tiles_entry {
  fields =
      put_all
        (new_job_mapping 7 two_tiles 1000 ++ (Field.status, Value.status Status.completed) ∷ [])
        (λ f. none);
}

abbrev right_tile : TileInfo
right_tile = record {
  payload = Payload.detections (cat_at 0 ∷ []);
  worker_id = "inference-1";
  x = 32;
  y = 0;
  width = 32;
  height = 32;
}

abbrev tiles_entry : Entry
tiles_entry = record missing {
  present = true;
  fields = put_all ((Field.tile 1, Value.tile_info right_tile) ∷ []) (λ f. none);
  size = 1;
}

-- The job 7 is completed.
abbrev done_server : reference.Server
done_server = (
  (λ k.
      if key_eq (job 7) k
      then done_entry
      else (if key_eq (tiles 7) k then tiles_entry else missing)),
  7 ∷ [],
)

abbrev done-HoldsJob : HoldsJob reference 32 7 2 Status.completed done_server
done-HoldsJob = record {
  job_hash = record {
    width = (64, refl);
    height = (32, refl);
    tile_size = (32, refl);
    timestamp = (1000, refl);
    start = (1000, refl);
    workers = (1, refl);
    results = (0, refl);
    failed = (0, refl);
    completion = (none, refl);
    status = refl;
    expected = refl;
  };
  nonempty = omega arith;
}

abbrev percent : ℕ → ℕ → ℕ
percent n m = n * 100 / m

detect_status-IsAnswered_example :
    (a : DetectStatus) × (detect_status reference first_only percent 32 (1 ∷ []) 7 done_server
      ≡ detect_status_of a)
    × (a.status ≡ Status.completed)
    × (a.received_tiles ≡ 0)
    × IsAnswered reference first_only percent 32 (1 ∷ []) 7 done_server Status.completed a.merged
detect_status-IsAnswered_example =
    detect_status-IsAnswered reference first_only percent 32 (1 ∷ []) 7 done_server
      (read_job 32 7 2 Status.completed done_entry.fields done-HoldsJob.job_hash)
      first_only-IsWithin
      (get_job-HoldsJob reference 32 7 2 Status.completed done_server done-HoldsJob)
