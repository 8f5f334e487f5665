-- ===== src/Admin/Metadata.antt =====
-- master/admin_routes.py: /metadata, the list of the jobs and the counts of the keys.
pub mod Grid
pub mod Listing
pub mod Sorting
use Prim.Native.String.{String}
use dip.Prelude.{
  ℕ, zero, suc, ◌+◌, ◌-◌, ◌*◌, ◌/◌, List, [], ◌∷◌, Option, none, some, Bool, true, false, not, ◌&&◌,
  ◌||◌, ltb, leb, ◌==◌, Result, ok, raise, if◌then◌else◌, length, max, ℤ, minus, Text, take,
}
use dip.Redis.{Status, Operation}
use dip.Jobstore.{Job}
use dip.Admin.{Database, Classified, classify_keys, get_job}

-- `int(n ** 0.5)`: the largest r with r * r <= n, looked for downwards.
pub root_below : ℕ → ℕ → ℕ
root_below n zero = 0
root_below n (suc r) = let rest = root_below n r in if leb (suc r * suc r) n then suc r else rest

-- `int(tiles_count ** 0.5) or 1`
pub grid_rows : ℕ → ℕ
unfolding root_below
grid_rows tiles_count =
    if root_below tiles_count tiles_count == 0 then 1 else root_below tiles_count tiles_count

-- `(tiles_count + rows - 1) // rows`
pub grid_columns : ℕ → ℕ
unfolding grid_rows
grid_columns tiles_count = (tiles_count + grid_rows tiles_count - 1) / grid_rows tiles_count

-- The JSON of a job. `created_at` is in seconds, and the processing time, a difference of two times,
-- in milliseconds.
pub record JobInfo : Type 0 where
  pub job_id : Text
  pub full_job_id : Text
  pub operation : Operation
  pub original_filename : String
  pub status : Status
  pub total_tiles : ℕ
  pub tiles_received : ℕ
  pub failed_tasks : ℕ
  pub rows : ℕ
  pub cols : ℕ
  pub created_at : ℕ
  pub image_size : ℕ × ℕ
  pub active_workers : ℕ
  pub processing_time : Option ℤ
  pub completion_time : Option ℕ
  pub result_available : Bool
  pub progress : ℕ

-- `a or b` for a number.
abbrev pub number_or : ℕ → ℕ → ℕ
number_or zero default = default
number_or (suc n) default = suc n

-- `completion_time - created_at`, and 'N/A' for a difference of 0 or no completion.
abbrev pub elapsed : Option ℕ → ℕ → Option ℤ
elapsed none created_at = none
elapsed (some completion_time) created_at =
    if completion_time == 0 || completion_time == created_at
    then none
    else some (minus completion_time created_at)

abbrev pub is_some {ℓ} : {A : Type ℓ} → Option A → Bool
is_some none = false
is_some (some a) = true

-- What the loop appends for a job; `percent` is the floating-point arithmetic of the progress.
pub job_info : (ℕ → ℕ → ℕ) → ℕ → Text → Job → JobInfo
unfolding grid_rows grid_columns
job_info percent now jid found =
    let created_at = number_or found.timestamp now in
    record {
      job_id = take 8 jid;
      full_job_id = jid;
      operation = found.operation;
      original_filename = found.original_filename;
      status = found.status;
      total_tiles = found.expected_tiles;
      tiles_received = found.results_count;
      failed_tasks = found.failed_tasks;
      rows = grid_rows found.expected_tiles;
      cols = grid_columns found.expected_tiles;
      created_at = created_at / 1000;
      image_size = (found.original_width, found.original_height);
      active_workers = found.active_workers;
      processing_time = elapsed found.completion_time created_at;
      completion_time = found.completion_time;
      result_available = is_some found.result_path;
      progress = percent found.results_count (max found.expected_tiles 1);
    }

-- `jobs.sort(key=..., reverse=True)`, which keeps the order of equals.
abbrev pub insert_job : JobInfo → List JobInfo → List JobInfo
insert_job a [] = a ∷ []
insert_job a (b ∷ bs) = if ltb a.created_at b.created_at then b ∷ insert_job a bs else a ∷ b ∷ bs

abbrev pub sort_jobs : List JobInfo → List JobInfo
sort_jobs [] = []
sort_jobs (a ∷ jobs) = insert_job a (sort_jobs jobs)

-- `sorted(all_keys)`
abbrev pub text_lt : Text → Text → Bool
text_lt t [] = false
text_lt [] (b ∷ bs) = true
text_lt (a ∷ as') (b ∷ bs) = ltb a b || (a == b && text_lt as' bs)

abbrev pub insert_text : Text → List Text → List Text
insert_text t [] = t ∷ []
insert_text t (u ∷ us) = if text_lt u t then u ∷ insert_text t us else t ∷ u ∷ us

abbrev pub sort_texts : List Text → List Text
sort_texts [] = []
sort_texts (t ∷ ts) = insert_text t (sort_texts ts)

-- `items[:n]`
abbrev pub first {ℓ} : {A : Type ℓ} → ℕ → List A → List A
first zero items = []
first (suc n) [] = []
first (suc n) (a ∷ items) = a ∷ first n items

pub record Metadata : Type 0 where
  pub total_jobs : ℕ
  pub jobs : List JobInfo
  pub total_keys : ℕ
  pub job_keys : ℕ
  pub tile_keys : ℕ
  pub counter_keys : ℕ
  pub current_counters : List (Text × ℕ)
  pub active_workers : List Text
  pub orphaned_keys : List Text
  pub total_orphaned : ℕ
  pub cleanup_recommended : Bool
  pub all_keys : List Text

module _ (D : Database) where
  open D use {State, entry, scan}

  -- The loop over the job ids; a job that is gone or that cannot be read is left out.
  pub collect_jobs : (ℕ → ℕ → ℕ) → ℕ → ℕ → List Text → State → List JobInfo
  unfolding get_job job_info
  collect_jobs percent default_tile_size now [] s = []
  collect_jobs percent default_tile_size now (jid ∷ jids) s =
      let rest = collect_jobs percent default_tile_size now jids s in
      elim (get_job D default_tile_size jid s) [
        | raise e ↦ rest
        | ok none ↦ rest
        | ok (some found) ↦ job_info percent now jid found ∷ rest
      ]

  abbrev pub counters : List Text → State → List (Text × ℕ)
  counters [] s = []
  counters (k ∷ ks) s = (k, (entry k s).counter) ∷ counters ks s

  -- `get_metadata`; `workers` is the answer of the heartbeat tracker.
  pub get_metadata : (ℕ → ℕ → ℕ) → ℕ → ℕ → List Text → State → Metadata
  unfolding classify_keys collect_jobs
  get_metadata percent default_tile_size now workers s =
      let found = classify_keys (scan s) in
      let jobs = collect_jobs percent default_tile_size now found.job_ids s in
      record {
        total_jobs = length jobs;
        jobs = sort_jobs jobs;
        total_keys = length found.all_keys;
        job_keys = length found.job_keys;
        tile_keys = length found.tile_tracking_keys;
        counter_keys = length found.counter_keys;
        current_counters = counters found.counter_keys s;
        active_workers = workers;
        orphaned_keys = first 20 found.orphaned_keys;
        total_orphaned = length found.orphaned_keys;
        cleanup_recommended = ltb 5 (length found.orphaned_keys);
        all_keys = first 50 (sort_texts found.all_keys);
      }
