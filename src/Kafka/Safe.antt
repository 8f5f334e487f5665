-- ===== src/Kafka/Safe.antt =====
-- What each thread of `KafkaProducerPool` in app/kafkaio.py knows at its place.
use dip.Prelude.{ℕ, ◌≡◌, ◌≢◌, ◌⊎◌, subst, some, true, false, ◌==◌, inl, inr, Bool-cases, ==_iff}
use dip.Kafka.{
  Place, start, entered, queued, holding, making, assigned, leaving, returning, failed, done, Pool,
  goes,
}

abbrev pub IsSettled : Pool → Type 0
IsSettled s = (s.initialized ≡ true) × (s.made ≡ 1) × (s.producer ≡ some 0)

abbrev pub IsFresh : Pool → Type 0
IsFresh s = (s.initialized ≡ false) × (s.made ≡ 0)

-- The producer is there, and the thread that made it has yet to say so.
pub record IsHalfway (s : Pool) : Type 0 where
  pub waits : s.initialized ≡ false
  pub one : s.made ≡ 1
  pub first : s.producer ≡ some 0
  pub maker : ℕ
  pub held : s.lock ≡ some maker
  pub there : s.threads maker ≡ assigned

-- What a thread knows at its place.
abbrev pub Fits : Pool → ℕ → Place → Type 0
Fits s i holding = s.lock ≡ some i
Fits s i making = (s.lock ≡ some i) × IsFresh s
Fits s i assigned = (s.lock ≡ some i) × (s.made ≡ 1) × (s.producer ≡ some 0)
Fits s i leaving = (s.lock ≡ some i) × IsSettled s
Fits s i returning = IsSettled s
Fits s i (done p) = p ≡ some 0
Fits s i _ = Unit {0}

pub record IsSafe (s : Pool) : Type 0 where
  pub phase : IsSettled s ⊎ (IsFresh s ⊎ IsHalfway s)
  pub fits : (i : ℕ) → Fits s i (s.threads i)

pub initialized-IsSettled : (s : Pool) → IsSafe s → s.initialized ≡ true → IsSettled s
initialized-IsSettled s h e = elim h.phase [
  | inl settled ↦ settled
  | inr (inl fresh) ↦ absurd (cc (fresh.0, e))
  | inr (inr half) ↦ absurd (cc (half.waits, e))
]

-- A thread that holds the lock and is not behind the constructor sees a pool with no producer.
pub holding-IsFresh :
    (s : Pool) (i : ℕ)
    → IsSafe s
    → s.lock ≡ some i
    → s.threads i ≢ assigned
    → s.initialized ≡ false
    → IsFresh s
holding-IsFresh s i h held away e = elim h.phase [
  | inl settled ↦ absurd (cc (settled.0, e))
  | inr (inl fresh) ↦ fresh
  | inr (inr half) ↦
      let same : half.maker ≡ i = cc (half.held, held) in
      absurd (away (subst (λ k. s.threads k ≡ assigned) same half.there))
]

-- A thread that does not hold the lock knows the same after a step that keeps a settled pool so.
pub outside-Fits :
    (s s' : Pool) (j : ℕ) (p : Place)
    → s.lock ≢ some j
    → (IsSettled s → IsSettled s')
    → Fits s j p
    → Fits s' j p
outside-Fits s s' j start away f h = tt
outside-Fits s s' j entered away f h = tt
outside-Fits s s' j queued away f h = tt
outside-Fits s s' j holding away f h = absurd (away h)
outside-Fits s s' j making away f h = absurd (away h.0)
outside-Fits s s' j assigned away f h = absurd (away h.0)
outside-Fits s s' j leaving away f h = absurd (away h.0)
outside-Fits s s' j returning away f h = f h
outside-Fits s s' j failed away f h = tt
outside-Fits s s' j (done p) away f h = h

module _ (i : ℕ) (p : Place) (s : Pool) where
  pub goes-Fits :
      Fits s i p
      → ((j : ℕ) → (j == i) ≡ false → Fits s j (s.threads j))
      → (j : ℕ) → Fits (goes i p s) j ((goes i p s).threads j)
  goes-Fits here others j = elim (Bool-cases (j == i)) [
    | inl e ↦ rw (e, (==_iff j i).0 e) here
    | inr e ↦ rw e (others j e)
  ]

  -- A step that only moves a thread which is not behind the constructor.
  pub goes-IsSafe : IsSafe s → s.threads i ≢ assigned → Fits s i p → IsSafe (goes i p s)
  goes-IsSafe h away here = record {
    phase = elim h.phase [
      | inl settled ↦ inl settled
      | inr (inl fresh) ↦ inr (inl fresh)
      | inr (inr half) ↦ inr (
          inr (record {
            waits = half.waits;
            one = half.one;
            first = half.first;
            maker = half.maker;
            held = half.held;
            there = elim (Bool-cases (half.maker == i)) [
              | inl e ↦ absurd (
                  away (subst (λ k. s.threads k ≡ assigned) ((==_iff half.maker i).0 e) half.there))
              | inr e ↦ rw e half.there
            ];
          }))
    ];
    fits = goes-Fits here (λ j e. h.fits j);
  }
