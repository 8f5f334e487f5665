-- ===== src/Kafka/Once.antt =====
-- The double-checked lock of `KafkaProducerPool` in app/kafkaio.py makes one producer.
use dip.Prelude.{
  ℕ, ◌+◌, ◌≤◌, ◌≡◌, ◌≢◌, ◌⊎◌, refl, sym, ap, subst, List, [], ◌∷◌, Option, none, some, Bool, true,
  false, ◌==◌, if◌then◌else◌, arith, inl, inr, Bool-cases, ==-refl,
}
use dip.Kafka.{
  Place, start, entered, queued, holding, making, assigned, leaving, returning, failed, done, Pool,
  goes, release, acquire, move_from, run, new_pool,
}
use dip.Kafka.Safe.{
  IsSettled, IsFresh, IsHalfway, Fits, IsSafe, initialized-IsSettled, holding-IsFresh, outside-Fits,
  goes-Fits, goes-IsSafe,
}

-- A step under the lock, in which the shared state becomes that of `s'`.
under_lock :
    (s s' : Pool) (i : ℕ) (p : Place)
    → ((j : ℕ) → s'.threads j ≡ s.threads j)
    → IsSafe s
    → ((j : ℕ) → (j == i) ≡ false → s.lock ≢ some j)
    → (IsSettled s → IsSettled s')
    → IsSettled s' ⊎ (IsFresh s' ⊎ IsHalfway (goes i p s'))
    → Fits s' i p
    → IsSafe (goes i p s')
under_lock s s' i p same h alone f phase here = record {
  phase = phase;
  fits = goes-Fits i p s' here (λ j e.
      subst (Fits s' j) (sym (same j))
        (outside-Fits s s' j (s.threads j) (alone j e) f (h.fits j)));
}

other_holder : (l : Option ℕ) (i j : ℕ) → l ≡ some i → (j == i) ≡ false → l ≢ some j
other_holder l i j held e h = let same : j ≡ i = cc (held, h) in absurd (grind (arith, e, same))

-- A step that reads `_initialized`.
branch-IsSafe :
    (i : ℕ) (s : Pool) (p q : Place)
    → (s.initialized ≡ true → IsSafe (goes i p s))
    → (s.initialized ≡ false → IsSafe (goes i q s))
    → IsSafe (goes i (if s.initialized then p else q) s)
branch-IsSafe i s p q f g = elim (Bool-cases s.initialized) [
  | inl e ↦ subst (λ b. IsSafe (goes i (if b then p else q) s)) (sym e) (f e)
  | inr e ↦ subst (λ b. IsSafe (goes i (if b then p else q) s)) (sym e) (g e)
]

move_from-IsSafe :
    (i : ℕ) (raises : Bool) (place : Place) (s : Pool)
    → s.threads i ≡ place
    → IsSafe s
    → IsSafe (move_from i raises place s)
unfolding move_from
move_from-IsSafe i raises start s e h =
    branch-IsSafe i s returning entered
      (λ ready. goes-IsSafe i returning s h (λ a. cc (e, a)) (initialized-IsSettled s h ready))
      (λ not_ready. goes-IsSafe i entered s h (λ a. cc (e, a)) tt)
move_from-IsSafe i raises entered s e h =
    branch-IsSafe i s returning queued
      (λ ready. goes-IsSafe i returning s h (λ a. cc (e, a)) (initialized-IsSettled s h ready))
      (λ not_ready. goes-IsSafe i queued s h (λ a. cc (e, a)) tt)
move_from-IsSafe i raises queued s e h = go s.lock refl
  where
    free :
        s.lock ≡ none
        → IsSettled s ⊎ (IsFresh s ⊎ IsHalfway s)
        → IsSettled s ⊎ (IsFresh s ⊎ IsHalfway (goes i holding (record s { lock = some i })))
    free e' (inl settled) = inl settled
    free e' (inr (inl fresh)) = inr (inl fresh)
    free e' (inr (inr half)) = absurd (cc (e', half.held))

    go : (l : Option ℕ) → s.lock ≡ l → IsSafe (acquire i l s)
    go (some j) e' = h
    go none e' =
        under_lock s (record s { lock = some i }) i holding (λ j. refl) h (λ j b a. cc (e', a))
          (λ x. x) (free e' h.phase) refl
move_from-IsSafe i raises holding s e h =
    branch-IsSafe i s leaving making
      (λ ready. goes-IsSafe i leaving s h (λ a. cc (e, a)) (held, initialized-IsSettled s h ready))
      (λ not_ready.
        goes-IsSafe i making s h (λ a. cc (e, a))
          (held, holding-IsFresh s i h held (λ a. cc (e, a)) not_ready))
  where
    held : s.lock ≡ some i
    held = subst (Fits s i) e (h.fits i)
move_from-IsSafe i true making s e h =
    under_lock s (release s) i failed (λ j. refl) h (λ j. other_holder s.lock i j here.0) (λ x. x)
      (inr (inl here.1)) tt
  where
    here : Fits s i making
    here = subst (Fits s i) e (h.fits i)
move_from-IsSafe i false making s e h =
    under_lock s (record s { producer = some s.made; made = s.made + 1 }) i assigned (λ j. refl) h
      (λ j. other_holder s.lock i j here.0) (λ settled. absurd (cc (settled.0, here.1.0)))
      (inr (
        inr (record {
          waits = here.1.0;
          one = one;
          first = first;
          maker = i;
          held = here.0;
          there = rw (==-refl i) refl;
        })))
      (here.0, one, first)
  where
    here : Fits s i making
    here = subst (Fits s i) e (h.fits i)

    one : s.made + 1 ≡ 1
    one = omega (arith, here.1.1)

    first : some s.made ≡ some 0
    first = ap some here.1.1
move_from-IsSafe i raises assigned s e h =
    under_lock s (record s { initialized = true }) i leaving (λ j. refl) h
      (λ j. other_holder s.lock i j here.0) (λ settled. (refl, settled.1, settled.2))
      (inl (refl, here.1, here.2)) (here.0, (refl, here.1, here.2))
  where
    here : Fits s i assigned
    here = subst (Fits s i) e (h.fits i)
move_from-IsSafe i raises leaving s e h =
    under_lock s (release s) i returning (λ j. refl) h (λ j. other_holder s.lock i j here.0)
      (λ x. x) (inl here.1) here.1
  where
    here : Fits s i leaving
    here = subst (Fits s i) e (h.fits i)
move_from-IsSafe i raises returning s e h =
    goes-IsSafe i (done s.producer) s h (λ a. cc (e, a)) here.2
  where
    here : Fits s i returning
    here = subst (Fits s i) e (h.fits i)
move_from-IsSafe i raises failed s e h = h
move_from-IsSafe i raises (done p) s e h = h

run-IsSafe : (moves : List (ℕ × Bool)) (s : Pool) → IsSafe s → IsSafe (run moves s)
unfolding run
run-IsSafe [] s h = h
run-IsSafe ((i, raises) ∷ moves) s h =
    run-IsSafe moves _ (move_from-IsSafe i raises (s.threads i) s refl h)

-- A thread that is through has the producer 0.
abbrev pub HasTheOne : Place → Type 0
HasTheOne (done p) = p ≡ some 0
HasTheOne _ = Unit {0}

through : (s : Pool) (i : ℕ) (p : Place) → Fits s i p → HasTheOne p
through s i (done p) h = h
through s i start h = tt
through s i entered h = tt
through s i queued h = tt
through s i holding h = tt
through s i making h = tt
through s i assigned h = tt
through s i leaving h = tt
through s i returning h = tt
through s i failed h = tt

at_most_one : (s : Pool) → IsSafe s → s.made ≤ 1
at_most_one s h = elim h.phase [
  | inl settled ↦ omega (arith, settled.1)
  | inr (inl fresh) ↦ omega (arith, fresh.1)
  | inr (inr half) ↦ omega (arith, half.one)
]

-- However the threads interleave, and whenever the constructor raises, at most one producer is made,
-- and each thread that `get_producer` returned to has this one, never None.
pub run-HasTheOne :
    (moves : List (ℕ × Bool)) (i : ℕ)
    → ((run moves new_pool).made ≤ 1) × HasTheOne ((run moves new_pool).threads i)
run-HasTheOne moves i =
    let safe =
      run-IsSafe moves new_pool (record { phase = inr (inl (refl, refl)); fits = λ j. tt }) in
    (at_most_one _ safe, through (run moves new_pool) i _ (safe.fits i))
