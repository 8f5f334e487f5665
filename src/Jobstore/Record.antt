-- ===== src/Jobstore/Record.antt =====
-- What app/jobstore.py leaves in Redis.
use dip.Prelude.{
  ℕ, ◌+◌, ◌≤◌, ◌≡◌, refl, [], ◌∷◌, Option, none, some, true, false, ◌==◌, ok, arith, length,
  Bool-cases, inl, inr, ◌⊎◌, ◌∙◌, ==_iff, subst, length-append, ==-refl,
}
use dip.Redis.{
  Redis, Key, job, tiles, latencies, attempts, Field, TileInfo, tile_info, hset, expire, key_eq,
  is_none, put, owner, Command, number_of, index,
}
use dip.Jobstore.{int_or, record_tile_result, count_new_tile, job_ttl_seconds}

is_none-cases {ℓ} :
    {A : Type ℓ} (o : Option A)
    → ((is_none o + 0 == 0) ≡ true) × (is_none o ≡ 0)
      ⊎ ((is_none o + 0 == 0) ≡ false) × (is_none o ≡ 1)
is_none-cases none = inr (refl, refl)
is_none-cases (some a) = inl (refl, refl)

module _ (R : Redis) where
  open R use {Server, entry, command, entry-command, reply-answer}

  -- A command changes nothing of another job.
  pub entry-command_other :
      (k k' : Key) (c : Command) (s : Server)
      → (owner k == owner k') ≡ false
      → entry k' (command k c s) ≡ entry k' s
  entry-command_other k k' c s e =
      rw entry-command (let e' : key_eq k k' ≡ false = ground (arith, e) in rw e')

  module _ (j t : ℕ) (info : TileInfo) (time : ℕ) (s : Server) where
    -- 1 for the first delivery of the tile, 0 for a duplicate.
    abbrev pub is_first : ℕ
    is_first = is_none ((entry (tiles j) s).fields (Field.tile t))

    abbrev pub after : Server
    after = (record_tile_result R j t info time s).0

    abbrev stored : Server
    stored =
        command (tiles j) (expire job_ttl_seconds)
          (command (tiles j) (hset ((Field.tile t, tile_info info) ∷ [])) s)

    record_cases {ℓ} :
        (P : Server → Type ℓ)
        → (is_first ≡ 0 → P stored)
        → (is_first ≡ 1 → P (count_new_tile R j time stored))
        → P after
    unfolding record_tile_result
    record_cases P old new = elim (is_none-cases ((entry (tiles j) s).fields (Field.tile t))) [
      | inl (e, zero) ↦ rw (reply-answer, e) (old zero)
      | inr (e, one) ↦ rw (reply-answer, e) (new one)
    ]

    pub record-other : (k : Key) → (j == owner k) ≡ false → entry k after ≡ entry k s
    unfolding count_new_tile
    record-other k e =
        record_cases (λ s'. entry k s' ≡ entry k s) (λ _. simp (entry-command_other, e))
          (λ _. simp (entry-command_other, e))

    pub record-attempts : (j' u : ℕ) → entry (attempts j' u) after ≡ entry (attempts j' u) s
    unfolding count_new_tile
    record-attempts j' u =
        record_cases (λ s'. entry (attempts j' u) s' ≡ entry (attempts j' u) s)
          (λ _. simp entry-command) (λ _. simp entry-command)

    pub size-record : (entry (tiles j) after).size ≡ (entry (tiles j) s).size + is_first
    unfolding count_new_tile
    size-record =
        record_cases (λ s'. (entry (tiles j) s').size ≡ (entry (tiles j) s).size + is_first)
          (λ _. simp (entry-command, ==-refl) (omega arith))
          (λ _. simp (entry-command, ==-refl) (omega arith))

    pub fields-record :
        (f : Field)
        → (entry (tiles j) after).fields f
          ≡ put (Field.tile t) (tile_info info) (entry (tiles j) s).fields f
    unfolding count_new_tile
    fields-record f =
        record_cases
          (λ s'.
            (entry (tiles j) s').fields f
            ≡ put (Field.tile t) (tile_info info) (entry (tiles j) s).fields f)
          (λ _. simp (entry-command, ==-refl)) (λ _. simp (entry-command, ==-refl))

    pub latencies-record :
        length (entry (latencies j) after).items ≡ length (entry (latencies j) s).items + is_first
    unfolding count_new_tile
    latencies-record =
        record_cases
          (λ s'.
            length (entry (latencies j) s').items ≡ length (entry (latencies j) s).items + is_first)
          (λ e. simp entry-command (omega arith))
          (λ e. simp (entry-command, ==-refl, length-append) (omega arith))

    pub results_count-record :
        number_of ((entry (job j) after).fields Field.results_count)
        ≡ number_of ((entry (job j) s).fields Field.results_count) + is_first
    unfolding count_new_tile
    results_count-record =
        record_cases
          (λ s'.
            number_of ((entry (job j) s').fields Field.results_count)
            ≡ number_of ((entry (job j) s).fields Field.results_count) + is_first)
          (λ e. simp entry-command (omega arith)) (λ e. simp (entry-command, ==-refl) (omega arith))

    pub job-record :
        (f : Field)
        → (index Field.results_count == index f) ≡ false
        → (entry (job j) after).fields f ≡ (entry (job j) s).fields f
    unfolding count_new_tile
    job-record f e =
        record_cases (λ s'. (entry (job j) s').fields f ≡ (entry (job j) s).fields f)
          (λ _. simp entry-command) (λ _. simp (entry-command, ==-refl, e))

    pub job-size-record : (entry (job j) s).size ≤ (entry (job j) after).size
    unfolding count_new_tile
    job-size-record =
        record_cases (λ s'. (entry (job j) s).size ≤ (entry (job j) s').size)
          (λ _. simp entry-command (omega arith)) (λ _. simp (entry-command, ==-refl) (omega arith))

    -- The counter stays a number.
    pub counter-record :
        (n : ℕ)
        → int_or 0 ((entry (job j) s).fields Field.results_count) ≡ ok n
        → (m : ℕ) × (int_or 0 ((entry (job j) after).fields Field.results_count) ≡ ok m)
    unfolding count_new_tile
    counter-record n h =
        record_cases
          (λ s'. (m : ℕ) × (int_or 0 ((entry (job j) s').fields Field.results_count) ≡ ok m))
          (λ _. (n, simp entry-command h))
          (λ _. (
            number_of ((entry (job j) s).fields Field.results_count) + 1,
            simp (entry-command, ==-refl),
          ))

    pub returned-record : (record_tile_result R j t info time s).1 ≡ (entry (tiles j) after).size
    unfolding record_tile_result
    returned-record = refl

    -- Every key that the call writes is left with the full TTL: the tiles always, and the job hash
    -- and the latencies on a first delivery.
    pub ttl-record :
        ((entry (tiles j) after).ttl ≡ some job_ttl_seconds)
        × (is_first ≡ 1
            → ((entry (job j) after).ttl ≡ some job_ttl_seconds)
              × ((entry (latencies j) after).ttl ≡ some job_ttl_seconds))
    unfolding count_new_tile
    ttl-record =
        record_cases
          (λ s'.
            ((entry (tiles j) s').ttl ≡ some job_ttl_seconds)
            × (is_first ≡ 1
                → ((entry (job j) s').ttl ≡ some job_ttl_seconds)
                  × ((entry (latencies j) s').ttl ≡ some job_ttl_seconds)))
          (λ old. simp (entry-command, ==-refl) (refl, λ new. absurd (omega arith)))
          (λ _. simp (entry-command, ==-refl) (refl, λ _. (refl, refl)))

  -- The counter of the job hash and the list of latencies agree with the number of distinct tiles.
  pub record IsConsistent (j : ℕ) (s : Server) : Type 0 where
    pub counted :
        number_of ((entry (job j) s).fields Field.results_count) ≡ (entry (tiles j) s).size
    pub sampled : length (entry (latencies j) s).items ≡ (entry (tiles j) s).size

  record-IsConsistent_self :
      (j t : ℕ) (info : TileInfo) (time : ℕ) (s : Server)
      → IsConsistent j s
      → IsConsistent j (after j t info time s)
  record-IsConsistent_self j t info time s v = record {
    counted =
        omega (arith, results_count-record j t info time s, size-record j t info time s, v.counted);
    sampled =
        omega (arith, latencies-record j t info time s, size-record j t info time s, v.sampled);
  }

  -- Recording a result, of this job or another, first or repeated, keeps the counter of the job
  -- hash, the list of latencies and the number of distinct tiles in agreement; the call returns
  -- that number, which grows by one exactly if the tile was not there yet.
  pub record-IsConsistent :
      (j t j' : ℕ) (info : TileInfo) (time : ℕ) (s : Server)
      → IsConsistent j' s
      → IsConsistent j' (record_tile_result R j t info time s).0
        × ((record_tile_result R j t info time s).1
            ≡ (entry (tiles j) s).size + is_none ((entry (tiles j) s).fields (Field.tile t)))
  record-IsConsistent j t j' info time s v = elim (Bool-cases (j == j')) [
    | inl here ↦ (
      subst (λ k. IsConsistent k s → IsConsistent k (after j t info time s)) ((==_iff j j').0 here)
          (record-IsConsistent_self j t info time s) v,
      returned-record j t info time s ∙ size-record j t info time s,
    )
    | inr away ↦ (
      record {
        counted = simp (record-other, away) v.counted;
        sampled = simp (record-other, away) v.sampled;
      },
      returned-record j t info time s ∙ size-record j t info time s,
    )
  ]
