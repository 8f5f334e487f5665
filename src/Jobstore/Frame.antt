-- ===== src/Jobstore/Frame.antt =====
-- Which keys the bookkeeping of the reaper in app/jobstore.py writes, and what it leaves there.
use dip.Prelude.{
  ℕ, ◌+◌, ◌≡◌, ok, false, ◌&&◌, ◌||◌, ◌==◌, if◌then◌else◌, arith, Bool-cases, inl, inr, ==-refl,
}
use mathlib.Core.Path.{subst₂}
use dip.Redis.{Redis, Key, job, attempts, abandoned, Status, Field, key_eq, field_eq, expire, incr}
use dip.Jobstore.{
  incr_tile_attempts, add_abandoned_tile, set_job_status, set_last_reap_time, job_ttl_seconds,
  get_last_reap_time,
}
use dip.Jobstore.View.{HoldsJob, hset_status-HoldsJob}

module _ (R : Redis) where
  open R use {Server, entry, command, entry-command, reply-answer}

  module _ (j : ℕ) (s : Server) (k : Key) where
    pub entry-add_abandoned_tile :
        (t : ℕ) → key_eq (abandoned j) k ≡ false → entry k (add_abandoned_tile R j t s) ≡ entry k s
    unfolding add_abandoned_tile
    entry-add_abandoned_tile t e = simp (entry-command, e)

    pub entry-incr_tile_attempts :
        (t : ℕ)
        → key_eq (attempts j t) k ≡ false
        → entry k (incr_tile_attempts R j t s).0 ≡ entry k s
    unfolding incr_tile_attempts
    entry-incr_tile_attempts t e = simp (entry-command, e)

    pub entry-set_job_status :
        (st : Status) → key_eq (job j) k ≡ false → entry k (set_job_status R j st s) ≡ entry k s
    unfolding set_job_status
    entry-set_job_status st e = simp (entry-command, e)

    pub entry-set_last_reap_time :
        (when : ℕ) → key_eq (job j) k ≡ false → entry k (set_last_reap_time R j when s) ≡ entry k s
    unfolding set_last_reap_time
    entry-set_last_reap_time when e = simp (entry-command, e)

  counter-incr_self :
      (j t : ℕ) (s : Server)
      → (entry (attempts j t) (incr_tile_attempts R j t s).0).counter
        ≡ (entry (attempts j t) s).counter + 1
  unfolding incr_tile_attempts
  counter-incr_self j t s = simp (entry-command, ==-refl)

  -- The counter of the tile grows by one, and no other counter changes.
  pub counter-incr_tile_attempts :
      (j t j' t' : ℕ) (s : Server)
      → (entry (attempts j' t') (incr_tile_attempts R j t s).0).counter
        ≡ (entry (attempts j' t') s).counter + (if j == j' && t == t' then 1 else 0)
  counter-incr_tile_attempts j t j' t' s = elim (Bool-cases (j == j' && t == t')) [
    | inl here ↦ rw here (
        subst₂
          (λ a b.
            (entry (attempts a b) (incr_tile_attempts R j t s).0).counter
            ≡ (entry (attempts a b) s).counter + 1)
          (ground (arith, here)) (ground (arith, here)) (counter-incr_self j t s))
    | inr away ↦ rw (away, entry-incr_tile_attempts j s (attempts j' t') t away) (omega arith)
  ]

  pub returned-incr_tile_attempts :
      (j t : ℕ) (s : Server) → (incr_tile_attempts R j t s).1 ≡ (entry (attempts j t) s).counter + 1
  unfolding incr_tile_attempts
  returned-incr_tile_attempts j t s = reply-answer (attempts j t) incr s

  -- The tile is abandoned, and no other.
  pub members-add_abandoned_tile :
      (j t u : ℕ) (s : Server)
      → (entry (abandoned j) (add_abandoned_tile R j t s)).members u
        ≡ (t == u || (entry (abandoned j) s).members u)
  unfolding add_abandoned_tile
  members-add_abandoned_tile j t u s = simp (entry-command, ==-refl)

  -- EXPIRE on the key of a job leaves the job readable.
  pub expire-HoldsJob :
      (d j n seconds : ℕ) (st : Status) (s : Server)
      → HoldsJob R d j n st s
      → HoldsJob R d j n st (command (job j) (expire seconds) s)
  expire-HoldsJob d j n seconds st s v = elim (Bool-cases (entry (job j) s).present) [
    | inl e ↦ record {
      job_hash = simp (entry-command, ==-refl, e) v.job_hash;
      nonempty = simp (entry-command, ==-refl, e) v.nonempty;
    }
    | inr e ↦ record {
      job_hash = simp (entry-command, ==-refl, e) v.job_hash;
      nonempty = simp (entry-command, ==-refl, e) v.nonempty;
    }
  ]

  -- The job takes the status and stays readable.
  pub set_job_status-HoldsJob :
      (d j n : ℕ) (old new : Status) (s : Server)
      → HoldsJob R d j n old s
      → HoldsJob R d j n new (set_job_status R j new s)
  unfolding set_job_status
  set_job_status-HoldsJob d j n old new s v =
      expire-HoldsJob d j n job_ttl_seconds new _ (hset_status-HoldsJob R d j n old new s v)

  -- So does the note of the last sweep.
  pub set_last_reap_time-HoldsJob :
      (d j n when : ℕ) (st : Status) (s : Server)
      → HoldsJob R d j n st s
      → HoldsJob R d j n st (set_last_reap_time R j when s)
  unfolding set_last_reap_time
  set_last_reap_time-HoldsJob d j n when st s v =
      let h = v.job_hash in
      expire-HoldsJob d j n job_ttl_seconds st _ (record {
        job_hash =
            simp (entry-command, ==-refl)
              (record {
                width = h.width;
                height = h.height;
                tile_size = h.tile_size;
                timestamp = h.timestamp;
                start = h.start;
                workers = h.workers;
                results = h.results;
                failed = h.failed;
                completion = h.completion;
                status = h.status;
                expected = h.expected;
              });
        nonempty = simp (entry-command, ==-refl) (omega (arith, v.nonempty));
      })

  -- The note of a sweep is read back.
  pub get_last_reap_time-set_last_reap_time :
      (j now : ℕ) (s : Server) → get_last_reap_time R j (set_last_reap_time R j now s) ≡ ok now
  unfolding get_last_reap_time set_last_reap_time
  get_last_reap_time-set_last_reap_time j now s = simp (entry-command, ==-refl)

  pub field-set_last_reap_time :
      (j now : ℕ) (s : Server) (f : Field)
      → field_eq Field.last_reap_time f ≡ false
      → (entry (job j) (set_last_reap_time R j now s)).fields f ≡ (entry (job j) s).fields f
  unfolding set_last_reap_time
  field-set_last_reap_time j now s f e = simp (entry-command, ==-refl, e)

  pub field-set_job_status :
      (j : ℕ) (st : Status) (s : Server) (f : Field)
      → field_eq Field.status f ≡ false
      → (entry (job j) (set_job_status R j st s)).fields f ≡ (entry (job j) s).fields f
  unfolding set_job_status
  field-set_job_status j st s f e = simp (entry-command, ==-refl, e)
