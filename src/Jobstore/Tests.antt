-- ===== src/Jobstore/Tests.antt =====
-- A server that holds one job, for examples of app/jobstore.py.
use dip.Prelude.{◌≡◌, refl, [], ◌∷◌, none, ok, if◌then◌else◌, true, arith}
use dip.Redis.{job, Entry, missing, key_eq, put_all, Status, opencv}
use dip.Redis.Reference.{reference}
use dip.Jobstore.{NewJob, new_job_mapping, get_last_reap_time}
use dip.Jobstore.View.{HoldsJob}
use dip.Jobstore.Record.{IsConsistent}

-- Two tiles of 64 x 32 pixels are expected.
abbrev pub two_tiles : NewJob
two_tiles = record {
  original_filename = "cat.png";
  operation = opencv "grayscale";
  original_width = 64;
  original_height = 32;
  expected_tiles = 2;
  active_workers = 1;
  tile_size = 32;
}

abbrev pub two_tiles_entry : Entry
two_tiles_entry = record missing {
  present = true;
  fields = put_all (new_job_mapping 7 two_tiles 1000) (λ f. none);
  size = 13;
}

-- The job 7, created at 1000.
abbrev pub busy_server : reference.Server
busy_server = ((λ k. if key_eq (job 7) k then two_tiles_entry else missing), 7 ∷ [])

abbrev pub busy-HoldsJob : HoldsJob reference 32 7 2 Status.processing busy_server
busy-HoldsJob = record {
  job_hash = record {
    width = (64, refl);
    height = (32, refl);
    tile_size = (32, refl);
    timestamp = (1000, refl);
    start = (1000, refl);
    workers = (1, refl);
    results = (0, refl);
    failed = (0, refl);
    completion = (none, refl);
    status = refl;
    expected = refl;
  };
  nonempty = omega arith;
}

pub never_reaped : get_last_reap_time reference 7 busy_server ≡ ok 0
unfolding get_last_reap_time
never_reaped = refl

pub busy-IsConsistent : IsConsistent reference 7 busy_server
busy-IsConsistent = record { counted = refl; sampled = refl }
