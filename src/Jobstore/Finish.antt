-- ===== src/Jobstore/Finish.antt =====
-- The end of a job in app/jobstore.py: its completion, and the deletion of what its tiles left.
use Prim.Native.String.{String}
use dip.Prelude.{ℕ, ◌≡◌, ◌∙◌, refl, List, [], ◌∷◌, some, false, arith, ==-refl}
use dip.Redis.{Redis, Key, job, tiles, attempts, key_eq, Status, delete, missing}
use dip.Jobstore.{mark_job_completed, delete_attempts, delete_job_tile_state, job_ttl_seconds}
use dip.Jobstore.View.{HoldsJob}
use dip.Jobstore.Frame.{expire-HoldsJob}

module _ (R : Redis) where
  open R use {Server, entry, command, entry-command}

  pub mark_job_completed-HoldsJob :
      (d j n now : ℕ) (st : Status) (result_path : String) (s : Server)
      → HoldsJob R d j n st s
      → HoldsJob R d j n Status.completed (mark_job_completed R j result_path now s)
  unfolding mark_job_completed
  mark_job_completed-HoldsJob d j n now st result_path s v =
      let h = v.job_hash in
      expire-HoldsJob R d j n job_ttl_seconds Status.completed _ (record {
        job_hash =
            simp (entry-command, ==-refl)
              (record {
                width = h.width;
                height = h.height;
                tile_size = h.tile_size;
                timestamp = h.timestamp;
                start = h.start;
                workers = h.workers;
                results = h.results;
                failed = h.failed;
                completion = (some now, refl);
                status = refl;
                expected = h.expected;
              });
        nonempty = simp (entry-command, ==-refl) (omega (arith, v.nonempty));
      })

  delete_attempts-other :
      (j : ℕ) (ts : List ℕ) (k : Key) (s : Server)
      → ((t : ℕ) → key_eq (attempts j t) k ≡ false)
      → entry k (delete_attempts R j ts s) ≡ entry k s
  unfolding delete_attempts
  delete_attempts-other j [] k s e = refl
  delete_attempts-other j (t ∷ ts) k s e =
      delete_attempts-other j ts k (command (attempts j t) delete s) e ∙ simp (entry-command, e t)

  -- The job hash stays, and the tiles are gone.
  pub job-delete_job_tile_state :
      (j : ℕ) (ts : List ℕ) (s : Server)
      → entry (job j) (delete_job_tile_state R j ts s) ≡ entry (job j) s
  unfolding delete_job_tile_state
  job-delete_job_tile_state j ts s =
      delete_attempts-other j ts (job j) _ (λ t. refl) ∙ simp entry-command refl

  pub tiles-delete_job_tile_state :
      (j : ℕ) (ts : List ℕ) (s : Server)
      → entry (tiles j) (delete_job_tile_state R j ts s) ≡ missing
  unfolding delete_job_tile_state
  tiles-delete_job_tile_state j ts s =
      delete_attempts-other j ts (tiles j) _ (λ t. refl) ∙ simp (entry-command, ==-refl) refl
