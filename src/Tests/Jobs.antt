-- ===== src/Tests/Jobs.antt =====
-- The theorems on the course of a job, at concrete inputs.
use dip.Prelude.{
  ℕ, ◌*◌, ◌≤◌, ◌≡◌, ◌⊎◌, refl, List, [], ◌∷◌, none, some, Bool, true, false, ◌==◌, ltb, Result, ok,
  raise, timeout_error, if◌then◌else◌, All, length, arith, inl,
}
use dip.Imaging.{Geometry}
use dip.Redis.{Status, opencv, BlobKind}
use dip.Redis.Reference.{reference, empty_server}
use dip.Jobstore.{create_job, record_tile_result}
use dip.Jobstore.Record.{IsConsistent, record-IsConsistent}
use dip.Jobstore.Tests.{two_tiles, busy_server, busy-HoldsJob, never_reaped, busy-IsConsistent}
use dip.Results.{listen, ResultMessage, Polled}
use dip.Results.History.{deliveries, heard, Tracks, listen-create_job}
use dip.Results.Ml.{listen_ml}
use dip.Results.Ml.Once.{IsFinishedOnce, listen_ml-IsFinishedOnce}
use dip.Reaper.{Config, Outside, Sweep, reap_job, reap_once}
use dip.Reaper.Budget.{sent_for, count_of, Event, swept, run, sent_for-run}
use dip.Reaper.Decision.{IsHopeless, reap_job-IsHopeless, IsFair, reap_job-sent}
use dip.Reaper.Liveness.{reap_often, reap_often-IsGivenUp}
use dip.Reaper.Outcome.{Settled, reap_once-Settled}
use dip.Jobstore.View.{HoldsJob}
use dip.Publisher
use dip.Publisher.{publish_tile_tasks}
use dip.Publisher.Accounts.{IsAccounted, publish_tile_tasks-IsAccounted}
use dip.Routes
use dip.Routes.{reconstruct_job}
use dip.Routes.Reconstruct.{Course, reconstruct_job-IsFinished}
use dip.Upload
use dip.Upload.{upload_image}
use dip.Imaging.Probe.Frames.{print_png}
use dip.Upload.Oversized.{IsRefused, png, upload_image-IsRefused}
use dip.Detect.Images.{detect_image}
use dip.Detect.Images.Outcome.{detect_image-Outcome}
use dip.Upload.Outcome.{Outcome, upload_image-Outcome}
use dip.Tests.{some_info}

abbrev result_of : ℕ → ResultMessage
result_of t = record {
  job_id = some 7;
  tile_id = some t;
  result_blob_key = some (record { job_id = 7; kind = BlobKind.result; tile_id = t });
  detections = some [];
  worker_id = some "worker1";
  x = some (32 * t);
  y = some 0;
  width = some 32;
  height = some 32;
  processing_time = some 5;
}

-- Tile 0 twice, tile 1 once, a message with no job, and one after the leadership is lost.
abbrev rounds_heard : List (Bool × Polled)
rounds_heard =
    (true, Polled.message (result_of 0))
    ∷ (true, Polled.nothing)
    ∷ (true, Polled.message (record (result_of 0) { job_id = none }))
    ∷ (true, Polled.message (result_of 1))
    ∷ (true, Polled.message (result_of 0))
    ∷ (false, Polled.message (result_of 1))
    ∷ []

listen-create_job_example :
    Tracks reference 32 7 2
      (deliveries 7 (heard rounds_heard []))
      (listen reference 32 rounds_heard (create_job reference 7 two_tiles 1000 (empty_server [])))
listen-create_job_example =
    listen-create_job reference 32 7 1000 two_tiles rounds_heard (empty_server []) (omega arith)
      refl refl

-- The first sweep of the blobs raises.
abbrev ml_rounds : List (Bool × (ℕ → Result (Unit {0})) × Polled)
ml_rounds =
    (true, (λ j. ok tt), Polled.message (result_of 0))
    ∷ (true, (λ j. raise timeout_error), Polled.message (result_of 1))
    ∷ (true, (λ j. ok tt), Polled.message (result_of 1))
    ∷ []

listen_ml-IsFinishedOnce_example : IsFinishedOnce reference 32 7 2 (
    listen_ml reference 32 ml_rounds
      (record { server = create_job reference 7 two_tiles 1000 (empty_server []); finished = [] }))
listen_ml-IsFinishedOnce_example =
    listen_ml-IsFinishedOnce reference 32 7 1000 two_tiles ml_rounds (empty_server []) (omega arith)
      refl refl

abbrev three_attempts : Config
three_attempts = record {
  max_tile_attempts = 3;
  outstanding_timeout = 60000;
  default_tile_size = 32;
}

abbrev all_well : Outside
all_well = record { tile_exists = λ k. true; produce = λ topic task. ok tt }

abbrev fresh_sweep : Sweep reference
fresh_sweep = record { server = busy_server; sent = []; requeued = 0; degraded = [] }

abbrev two_sweeps : List Event
two_sweeps = swept all_well 70000 ((true, 7) ∷ []) ∷ swept all_well 140000 ((true, 7) ∷ []) ∷ []

sent_for-run_example :
    (sent_for 7 1 (run reference three_attempts two_sweeps fresh_sweep).sent ≤ 2)
    × (sent_for 7 1 (run reference three_attempts two_sweeps fresh_sweep).sent
        ≤ count_of reference 7 1 (run reference three_attempts two_sweeps fresh_sweep).server)
sent_for-run_example = sent_for-run reference three_attempts two_sweeps busy_server 7 1

reap_job-IsHopeless_example :
    (IsHopeless reference 7 2 busy_server
      × ((reap_job reference three_attempts all_well 70000 7 fresh_sweep).degraded ≡ 7 ∷ []))
    ⊎ ((¬ IsHopeless reference 7 2 busy_server)
        × ((reap_job reference three_attempts all_well 70000 7 fresh_sweep).degraded ≡ []))
reap_job-IsHopeless_example =
    reap_job-IsHopeless reference three_attempts all_well 70000 7 2 0 fresh_sweep busy-HoldsJob
      never_reaped (omega arith)

reap_job-sent_example :
    All
      (IsFair reference three_attempts all_well 7 2 busy_server)
      (reap_job reference three_attempts all_well 70000 7 fresh_sweep).sent
reap_job-sent_example =
    reap_job-sent reference three_attempts all_well 70000 7 2 0 fresh_sweep busy-HoldsJob
      never_reaped refl

abbrev four_sweeps : List ℕ
four_sweeps = 61000 ∷ 121000 ∷ 181000 ∷ 241000 ∷ []

reap_often-IsGivenUp_example :
    HoldsJob reference 32 7 2 Status.degraded
      (reap_often reference three_attempts all_well 7 four_sweeps fresh_sweep).server
reap_often-IsGivenUp_example =
    reap_often-IsGivenUp reference three_attempts all_well 7 2 (λ topic task. refl) 0 four_sweeps
      fresh_sweep busy-HoldsJob (omega arith) never_reaped refl (0, omega arith, refl)
      (omega arith, (omega arith, (omega arith, (omega arith, tt)))) (omega arith)

reap_once-Settled_example :
    Settled reference three_attempts 32 7 2 Status.processing
      (reap_once reference three_attempts all_well 70000 ((true, 7) ∷ (true, 8) ∷ []) fresh_sweep)
reap_once-Settled_example =
    reap_once-Settled reference three_attempts 32 7 2 Status.processing all_well 70000
      ((true, 7) ∷ (true, 8) ∷ []) fresh_sweep busy-HoldsJob

record-IsConsistent_example :
    IsConsistent reference 7 (record_tile_result reference 7 0 some_info 5 busy_server).0
    × ((record_tile_result reference 7 0 some_info 5 busy_server).1 ≡ 1)
record-IsConsistent_example =
    record-IsConsistent reference 7 0 7 some_info 5 busy_server busy-IsConsistent

abbrev two_geometries : List Geometry
two_geometries =
    record { tile_id = 1; x = 32; y = 0; width = 32; height = 32 }
    ∷ record { tile_id = 0; x = 0; y = 0; width = 32; height = 32 }
    ∷ []

-- The staging of tile 1 raises; one delivery is reported as failed in the last flush.
abbrev half_staged : Publisher.Outside
half_staged = record {
  put_tile = λ key. if key.tile_id == 1 then raise timeout_error else ok tt;
  produce = λ topic task. ok tt;
  failed_reports = λ g. 0;
  last_reports = 1;
}

publish_tile_tasks-IsAccounted_example :
    IsAccounted reference 7 2 1 1 busy_server
      (publish_tile_tasks reference half_staged 7 two_geometries
        (opencv "grayscale")
        50
        busy_server).0
    × ((publish_tile_tasks reference half_staged 7 two_geometries
          (opencv "grayscale")
          50
          busy_server).1
        ≡ ltb 0 (
            length
              (publish_tile_tasks reference half_staged 7 two_geometries
                (opencv "grayscale")
                50
                busy_server).0.sent))
publish_tile_tasks-IsAccounted_example =
    publish_tile_tasks-IsAccounted reference half_staged 7 two_geometries (opencv "grayscale") 50
      busy_server (omega arith)

-- No tile has come: the call is too early.
abbrev drawing : Routes.Outside reference ℕ
drawing = record {
  shown = [];
  get_tile = λ key. ok 1;
  render = λ tiles width height. ok tt;
  result_path = "results/7_processed.jpg";
  now = 2000;
  attempt_tiles = [];
  delete_job_tiles = λ j. ok tt;
}

reconstruct_job-IsFinished_example :
    Course reference ℕ 32 7 2 busy_server (reconstruct_job reference ℕ drawing 32 7 busy_server)
reconstruct_job-IsFinished_example =
    reconstruct_job-IsFinished reference ℕ drawing 32 7 2 Status.processing busy_server
      (omega arith) busy-HoldsJob

abbrev site : Upload.Config
site = record {
  max_tiles = 100;
  tile_size = 32;
  min_image_size = 32;
  max_image_dimension = 1000;
  batch_size = 50;
  is_operation = λ o. true;
  is_allowed = λ ext. true;
}

abbrev one_worker : Upload.Outside
one_worker = record {
  active_workers = 1;
  save = Upload.stored;
  header = ok (print_png 64 32 []);
  image = ok (some (64, 32));
  remove = ok tt;
  job_id = 8;
  now = 3000;
  completion = λ tiles. tiles;
  publisher = half_staged;
}

abbrev cat_upload : Upload.Request
cat_upload = record {
  file = some (Upload.extended "cat.png" "png");
  operation = opencv "grayscale";
}

abbrev no_uploads : Upload.Uploads reference
no_uploads = record { server = busy_server; files = []; sent = [] }

upload_image-Outcome_example :
    Outcome reference 32 site one_worker no_uploads
      (upload_image reference site one_worker cat_upload no_uploads)
upload_image-Outcome_example =
    upload_image-Outcome reference 32 site one_worker cat_upload no_uploads (omega arith) refl

-- The file says that it is 5000 pixels wide, and OpenCV reads it as 64 by 32.
abbrev wide_upload : Upload.Outside
wide_upload = record one_worker { header = ok (print_png 5000 32 []) }

upload_image-IsRefused_example :
    IsRefused reference site wide_upload no_uploads
      (upload_image reference site wide_upload cat_upload no_uploads)
upload_image-IsRefused_example =
    upload_image-IsRefused reference site wide_upload 5000 32 (print_png 5000 32 []) cat_upload
      no_uploads refl (png [] refl) (inl (omega arith))

detect_image-Outcome_example :
    Outcome reference 32 site one_worker no_uploads
      (detect_image reference site one_worker (some (Upload.extended "cat.png" "png")) no_uploads)
detect_image-Outcome_example =
    detect_image-Outcome reference 32 site one_worker (some (Upload.extended "cat.png" "png"))
      no_uploads (omega arith) refl
