-- ===== src/Jobstore/View.antt =====
-- What `get_job` reads back of a job hash that the program wrote.
use dip.Prelude.{
  ℕ, ◌≡◌, refl, [], ◌∷◌, Option, none, some, false, ◌==◌, ok, arith, Bool-cases, inl, inr, ==_iff,
  ==-refl, subst, ◌<◌, sym,
}
use dip.Redis.{
  Redis, Key, job, Field, Status, TileInfo, Value, number, missing, Entry, hset, opencv, key_eq,
}
use dip.Jobstore.{
  text_or, optional_text, create_job, get_job, parse_job, Job, NewJob, int_or, optional_int,
  operation_or, record_tile_result,
}
use dip.Jobstore.Record.{record-other, job-record, counter-record, job-size-record}

abbrev pub Raw : Type 0
Raw = Field → Option Value

-- The field is absent or a number.
abbrev pub Reads : ℕ → Option Value → Type 0
Reads default o = (n : ℕ) × (int_or default o ≡ ok n)

-- A job hash that `get_job` reads without an exception, with its status and its number of tiles.
pub record IsJob (d : ℕ) (n : ℕ) (st : Status) (raw : Raw) : Type 0 where
  pub width : Reads 0 (raw Field.original_width)
  pub height : Reads 0 (raw Field.original_height)
  pub tile_size : Reads d (raw Field.tile_size)
  pub timestamp : Reads 0 (raw Field.timestamp)
  pub start : Reads 0 (raw Field.processing_start)
  pub workers : Reads 0 (raw Field.active_workers)
  pub results : Reads 0 (raw Field.results_count)
  pub failed : Reads 0 (raw Field.failed_tasks)
  pub completion : (t : Option ℕ) × (optional_int (raw Field.completion_time) ≡ ok t)
  pub status : raw Field.status ≡ some (Value.status st)
  pub expected : raw Field.expected_tiles ≡ some (number n)

-- The job that is read.
abbrev pub read_job : (d j n : ℕ) (st : Status) (raw : Raw) → IsJob d n st raw → Job
read_job d j n st raw v = record {
  job_id = j;
  original_filename = text_or "unknown" (raw Field.original_filename);
  operation = operation_or (opencv "unknown") (raw Field.operation);
  original_width = v.width.0;
  original_height = v.height.0;
  tile_size = v.tile_size.0;
  timestamp = v.timestamp.0;
  processing_start = v.start.0;
  status = st;
  expected_tiles = n;
  active_workers = v.workers.0;
  results_count = v.results.0;
  failed_tasks = v.failed.0;
  completion_time = v.completion.0;
  result_path = optional_text (raw Field.result_path);
}

pub parse_job-IsJob :
    (d j n : ℕ) (st : Status) (raw : Raw) (v : IsJob d n st raw)
    → parse_job d j raw ≡ ok (read_job d j n st raw v)
unfolding parse_job
parse_job-IsJob d j n st raw v = simp (
  v.width.1, v.height.1, v.tile_size.1, v.timestamp.1, v.start.1, v.workers.1, v.results.1,
  v.failed.1, v.completion.1, v.status, v.expected,
)

module _ (R : Redis) where
  open R use {Server, entry, command, entry-command}

  -- The key holds such a hash.
  pub record HoldsJob (d j n : ℕ) (st : Status) (s : Server) : Type 0 where
    pub job_hash : IsJob d n st (entry (job j) s).fields
    pub nonempty : 0 < (entry (job j) s).size

  pub get_job-HoldsJob :
      (d j n : ℕ) (st : Status) (s : Server) (v : HoldsJob d j n st s)
      → get_job R d j s ≡ ok (some (read_job d j n st (entry (job j) s).fields v.job_hash))
  unfolding get_job
  get_job-HoldsJob d j n st s v =
      let e : ((entry (job j) s).size == 0) ≡ false = ground (arith, v.nonempty) in
      rw (e, parse_job-IsJob d j n st (entry (job j) s).fields v.job_hash)

  record-HoldsJob_self :
      (d j n t : ℕ) (st : Status) (info : TileInfo) (time : ℕ) (s : Server)
      → HoldsJob d j n st s
      → HoldsJob d j n st (record_tile_result R j t info time s).0
  record-HoldsJob_self d j n t st info time s v =
      let kept = job-record R j t info time s in
      let h = v.job_hash in
      record {
        job_hash = record {
          width = (h.width.0, rw (kept Field.original_width refl) h.width.1);
          height = (h.height.0, rw (kept Field.original_height refl) h.height.1);
          tile_size = (h.tile_size.0, rw (kept Field.tile_size refl) h.tile_size.1);
          timestamp = (h.timestamp.0, rw (kept Field.timestamp refl) h.timestamp.1);
          start = (h.start.0, rw (kept Field.processing_start refl) h.start.1);
          workers = (h.workers.0, rw (kept Field.active_workers refl) h.workers.1);
          results = counter-record R j t info time s h.results.0 h.results.1;
          failed = (h.failed.0, rw (kept Field.failed_tasks refl) h.failed.1);
          completion = (h.completion.0, rw (kept Field.completion_time refl) h.completion.1);
          status = rw (kept Field.status refl) h.status;
          expected = rw (kept Field.expected_tiles refl) h.expected;
        };
        nonempty = omega (arith, v.nonempty, job-size-record R j t info time s);
      }

  -- Whatever leaves the entry of the job alone keeps it readable.
  pub HoldsJob-same :
      (d j n : ℕ) (st : Status) (s s' : Server)
      → entry (job j) s' ≡ entry (job j) s
      → HoldsJob d j n st s
      → HoldsJob d j n st s'
  HoldsJob-same d j n st s s' e v = record {
    job_hash = subst (λ (x : Entry). IsJob d n st x.fields) (sym e) v.job_hash;
    nonempty = subst (λ (x : Entry). 0 < x.size) (sym e) v.nonempty;
  }

  -- A result, of any job, leaves a job readable with its status and its number of tiles.
  pub record-HoldsJob :
      (d j n j' t : ℕ) (st : Status) (info : TileInfo) (time : ℕ) (s : Server)
      → HoldsJob d j n st s
      → HoldsJob d j n st (record_tile_result R j' t info time s).0
  record-HoldsJob d j n j' t st info time s v = elim (Bool-cases (j' == j)) [
    | inl here ↦
        subst (λ k. HoldsJob d j n st (record_tile_result R k t info time s).0)
          (sym ((==_iff j' j).0 here)) (record-HoldsJob_self d j n t st info time s v)
    | inr away ↦ HoldsJob-same d j n st s _ (record-other R j' t info time s (job j) away) v
  ]

  -- A write of the status alone.
  abbrev pub hset_status : ℕ → Status → Server → Server
  hset_status j st s = command (job j) (hset ((Field.status, Value.status st) ∷ [])) s

  pub hset_status-HoldsJob :
      (d j n : ℕ) (old new : Status) (s : Server)
      → HoldsJob d j n old s
      → HoldsJob d j n new (hset_status j new s)
  hset_status-HoldsJob d j n old new s v =
      let h = v.job_hash in
      record {
        job_hash =
            simp (entry-command, ==-refl)
              (record {
                width = h.width;
                height = h.height;
                tile_size = h.tile_size;
                timestamp = h.timestamp;
                start = h.start;
                workers = h.workers;
                results = h.results;
                failed = h.failed;
                completion = h.completion;
                status = refl;
                expected = h.expected;
              });
        nonempty = simp (entry-command, ==-refl) (omega (arith, v.nonempty));
      }

  -- A new job is readable, waits for its tiles and has received none.
  pub create_job-HoldsJob :
      (d j now : ℕ) (n : NewJob) (s : Server)
      → entry (job j) s ≡ missing
      → HoldsJob d j n.expected_tiles Status.processing (create_job R j n now s)
  unfolding create_job
  create_job-HoldsJob d j now n s e = record {
    job_hash =
        simp (entry-command, ==-refl, e)
          (record {
            width = (n.original_width, refl);
            height = (n.original_height, refl);
            tile_size = (n.tile_size, refl);
            timestamp = (now, refl);
            start = (now, refl);
            workers = (n.active_workers, refl);
            results = (0, refl);
            failed = (0, refl);
            completion = (none, refl);
            status = refl;
            expected = refl;
          });
    nonempty = simp (entry-command, ==-refl, e) (omega arith);
  }

  -- Creating a job writes its hash only.
  pub entry-create_job :
      (j now : ℕ) (n : NewJob) (s : Server) (k : Key)
      → key_eq (job j) k ≡ false
      → entry k (create_job R j n now s) ≡ entry k s
  unfolding create_job
  entry-create_job j now n s k e = simp (entry-command, e)
