-- ===== src/Leader/Overlap.antt =====
-- How long two processes of app/leader.py can both believe to be the leader.
use dip.Prelude.{
  ℕ, ◌+◌, ◌≤◌, ◌≡◌, refl, true, false, ◌&&◌, ltb, leb, ◌==◌, arith, inl, inr, ◌⊎◌, Bool-cases,
  ==-refl,
}
use dip.Leader.{
  leader_ttl_ms, Call, acquire, renew, release, Phase, asleep, sent, executed, Process, State,
  is_leader, is_free, is_held_by, serve_call, serve, Step, wakes, serves, receives, fails, ticks,
  Reachable, starts, steps,
}
use dip.Leader.Exclusion.{
  Covered, LeaseAt, IsLeased, wake-IsLeased, receive-IsLeased, fail-IsLeased, tick-LeaseAt, IsSafe,
  local-IsSafe, grant-IsSafe, drop-IsSafe,
}

module _ (delay : ℕ) where
  -- A lock that is free is owned by nobody; one that is held is owned by its holder alone.
  unowned :
      (s : State) (r : ℕ) → IsSafe delay s → is_free s.now s.lock ≡ true → s.owned_until r ≤ s.now
  unowned s r v free = elim (Bool-cases (ltb s.now (s.owned_until r))) [
    | inl lt ↦ absurd (
        let free' : leb (s.owned_until r) s.now ≡ true =
          rw (v.exclusive r (ground (arith, lt))) at free in
        ground (arith, lt, free'))
    | inr ge ↦ ground (arith, ge)
  ]

  owned_by_other :
      (s : State) (p r : ℕ)
      → IsSafe delay s
      → is_held_by p s.now s.lock ≡ true
      → (r == p) ≡ false
      → s.owned_until r ≤ s.now
  owned_by_other s p r v held e = elim (Bool-cases (ltb s.now (s.owned_until r))) [
    | inl lt ↦ absurd (
        let held' : (r == p && ltb s.now (s.owned_until r)) ≡ true =
          rw (v.exclusive r (ground (arith, lt))) at held in
        ground (arith, lt, held', e))
    | inr ge ↦ ground (arith, ge)
  ]

  Covered-later :
      (s : State) (p : ℕ)
      → IsSafe delay s
      → Covered delay (s.owned_until p) (s.processes p).is_set (s.processes p).expires_at
      → Covered delay (s.now + leader_ttl_ms) (s.processes p).is_set (s.processes p).expires_at
  Covered-later s p v h e = omega (arith, h e, v.bounded p)

  serve_call-IsSafe :
      (p : ℕ) (c : Call) (s : State)
      → Covered delay (s.owned_until p) (s.processes p).is_set (s.processes p).expires_at
      → IsSafe delay s
      → IsSafe delay (serve_call p c s)
  unfolding serve_call
  serve_call-IsSafe p acquire s h v = elim (Bool-cases (is_free s.now s.lock)) [
    | inl free ↦
        rw (free, serve_call)
          (grant-IsSafe delay p s v (λ r _. unowned s r v free) acquire
            (omega arith, Covered-later s p v h, λ _. omega arith))
    | inr taken ↦
        rw (taken, serve_call) (local-IsSafe delay p _ s (omega arith, h, λ k. absurd cc) v)
  ]
  serve_call-IsSafe p renew s h v = elim (Bool-cases (is_held_by p s.now s.lock)) [
    | inl held ↦
        rw (held, serve_call)
          (grant-IsSafe delay p s v (λ r e. owned_by_other s p r v held e) renew
            (omega arith, Covered-later s p v h, λ _. omega arith))
    | inr lost ↦ rw (lost, serve_call) (local-IsSafe delay p _ s (omega arith, h, λ k. absurd cc) v)
  ]
  serve_call-IsSafe p release s h v = elim (Bool-cases (is_held_by p s.now s.lock)) [
    | inl held ↦
        rw (held, serve_call) (drop-IsSafe delay p s v (λ r e. owned_by_other s p r v held e))
    | inr lost ↦ rw (lost, serve_call) (local-IsSafe delay p _ s (omega arith, inl h) v)
  ]

  serve-IsSafe : (p : ℕ) (s : State) → IsSafe delay s → IsSafe delay (serve p s)
  unfolding serve
  serve-IsSafe p s v = go (s.processes p).phase refl
    where
      go : (ph : Phase) → (s.processes p).phase ≡ ph → IsSafe delay (serve p s)
      go asleep e = rw (e, serve) v
      go (sent c) e =
          rw (e, serve)
            (serve_call-IsSafe p c s
              (let h : LeaseAt delay s.now (s.owned_until p) (s.processes p).is_set
                    (s.processes p).expires_at (sent c) =
                  rw e at (v.leased p) in
                h)
              v)
      go (executed c w g) e = rw (e, serve) v

  Step-IsSafe : (s s' : State) → Step delay s s' → IsSafe delay s → IsSafe delay s'
  Step-IsSafe _ _ (wakes p s) v =
      local-IsSafe delay p _ s
        (wake-IsLeased delay s.now (s.owned_until p) (s.processes p) (v.leased p)) v
  Step-IsSafe _ _ (serves p s) v = serve-IsSafe p s v
  Step-IsSafe _ _ (receives p s) v =
      local-IsSafe delay p _ s
        (receive-IsLeased delay s.now (s.owned_until p) (s.processes p) (v.leased p)) v
  Step-IsSafe _ _ (fails p s) v =
      local-IsSafe delay p _ s
        (fail-IsLeased delay s.now (s.owned_until p) (s.processes p) (v.leased p)) v
  Step-IsSafe _ _ (ticks s t) v = record {
    exclusive = λ r lt. v.exclusive r (omega (arith, lt));
    bounded = λ r. omega (arith, v.bounded r);
    leased = λ r.
        tick-LeaseAt delay s.now (s.owned_until r) (s.processes r).is_set (s.processes r).expires_at
          (s.processes r).phase (t r) (v.leased r);
  }

  pub Reachable-IsSafe : (s : State) → Reachable delay s → IsSafe delay s
  Reachable-IsSafe _ starts = record {
    exclusive = λ r lt. absurd (omega (arith, lt));
    bounded = λ r. omega arith;
    leased = λ r e. absurd cc;
  }
  Reachable-IsSafe _ (steps s s' h st) = Step-IsSafe s s' st (Reachable-IsSafe s h)

  believes-covered :
      (now owned : ℕ) (p : Process)
      → IsLeased delay now owned p
      → is_leader now p ≡ true
      → now ≤ owned + delay
  believes-covered now owned p h e = go p.phase refl
    where
      inside : Covered delay owned p.is_set p.expires_at → now ≤ owned + delay
      inside k = ground (arith, e, k)

      go : (ph : Phase) → p.phase ≡ ph → now ≤ owned + delay
      go asleep x = inside (rw x at h)
      go (sent c) x = inside (rw x at h)
      go (executed release w g) x =
          let h' : LeaseAt delay now owned p.is_set p.expires_at (executed release w g) =
            rw x at h in
          elim h'.1 [ inl k ↦ inside k | inr k ↦ omega (arith, k, h'.0) ]
      go (executed acquire w g) x =
          let h' : LeaseAt delay now owned p.is_set p.expires_at (executed acquire w g) =
            rw x at h in
          inside h'.1
      go (executed renew w g) x =
          let h' : LeaseAt delay now owned p.is_set p.expires_at (executed renew w g) = rw x at h in
          inside h'.1

  -- In any state that any number of processes reach, with calls answered, refused, failed and
  -- given up in any order, where no process takes longer than `delay` to act on what the server
  -- has executed: if two different processes both believe to be the leader, then one of them has
  -- lost the lock at the server, and neither lost it longer than `delay` ago.
  pub is_leader-overlap :
      (s : State) (p q : ℕ)
      → Reachable delay s
      → (p == q) ≡ false
      → is_leader s.now (s.processes p) ≡ true
      → is_leader s.now (s.processes q) ≡ true
      → ((s.owned_until p ≤ s.now) ⊎ (s.owned_until q ≤ s.now))
        × (s.now ≤ s.owned_until p + delay)
        × (s.now ≤ s.owned_until q + delay)
  is_leader-overlap s p q reached differ leads leads' =
      let v = Reachable-IsSafe s reached in
      (
        elim (Bool-cases (ltb s.now (s.owned_until p))) [
          | inr ge ↦ inl (ground (arith, ge))
          | inl lt ↦ inr (
              owned_by_other s p q v
                (rw (v.exclusive p (ground (arith, lt))) (ground (arith, lt, ==-refl p)))
                (ground (arith, differ)))
        ],
        believes-covered s.now (s.owned_until p) (s.processes p) (v.leased p) leads,
        believes-covered s.now (s.owned_until q) (s.processes q) (v.leased q) leads',
      )
