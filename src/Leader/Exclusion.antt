-- ===== src/Leader/Exclusion.antt =====
-- Who believes to be the leader in app/leader.py, and for how long.
use dip.Prelude.{
  ℕ, ◌+◌, ◌≤◌, ◌<◌, ◌≡◌, ◌≢◌, refl, some, Bool, true, false, ◌==◌, arith, inl, inr, ◌⊎◌, Bool-cases,
  ==_iff,
}
use dip.Leader.{
  leader_ttl_ms, Call, acquire, renew, release, Phase, asleep, sent, executed, Process, State, at,
  wake, grant, drop, note, lead, stand_down, receive, fail_call, fail, IsInTime,
}

module _ (delay : ℕ) where
  -- A leader's deadline is covered by what the server gave it, up to the delay.
  abbrev pub Covered : ℕ → Bool → ℕ → Type 0
  Covered owned is_set expires_at = is_set ≡ true → expires_at ≤ owned + delay

  abbrev pub LeaseAt : ℕ → ℕ → Bool → ℕ → Phase → Type 0
  LeaseAt now owned b x asleep = Covered owned b x
  LeaseAt now owned b x (sent c) = Covered owned b x
  LeaseAt now owned b x (executed release when g) =
      (now ≤ when + delay) × (Covered owned b x ⊎ (when ≤ owned))
  LeaseAt now owned b x (executed acquire when g) =
      (now ≤ when + delay) × Covered owned b x × (g ≡ true → when + leader_ttl_ms ≤ owned)
  LeaseAt now owned b x (executed renew when g) =
      (now ≤ when + delay) × Covered owned b x × (g ≡ true → when + leader_ttl_ms ≤ owned)

  abbrev pub IsLeased : ℕ → ℕ → Process → Type 0
  IsLeased now owned p = LeaseAt now owned p.is_set p.expires_at p.phase

  stand_down-IsLeased : (now owned : ℕ) (p : Process) → IsLeased now owned (stand_down p)
  stand_down-IsLeased now owned p e = absurd cc

  lead-IsLeased :
      (now owned when : ℕ) (p : Process)
      → now ≤ when + delay
      → when + leader_ttl_ms ≤ owned
      → IsLeased now owned (lead now p)
  lead-IsLeased now owned when p h h' e = omega (arith, h, h')

  pub wake-IsLeased :
      (now owned : ℕ) (p : Process) → IsLeased now owned p → IsLeased now owned (wake p)
  unfolding wake
  wake-IsLeased now owned p h = go p.phase refl
    where
      go : (ph : Phase) → p.phase ≡ ph → IsLeased now owned (wake p)
      go asleep e = simp (e, wake) (simp e at h)
      go (sent c) e = simp (e, wake) (simp e at h)
      go (executed c w g) e = simp (e, wake) (simp e at h)

  pub receive-IsLeased :
      (now owned : ℕ) (p : Process) → IsLeased now owned p → IsLeased now owned (receive now p)
  unfolding receive
  receive-IsLeased now owned p h = go p.phase refl
    where
      go : (ph : Phase) → p.phase ≡ ph → IsLeased now owned (receive now p)
      go asleep e = simp (e, receive) (simp e at h)
      go (sent c) e = simp (e, receive) (simp e at h)
      go (executed release w g) e = simp (e, receive) (stand_down-IsLeased now owned p)
      go (executed acquire w true) e =
          simp (e, receive)
            (let h' : LeaseAt now owned p.is_set p.expires_at (executed acquire w true) =
                simp e at h in
              lead-IsLeased now owned w p h'.0 (h'.2 refl))
      go (executed acquire w false) e =
          simp (e, receive)
            (let h' : LeaseAt now owned p.is_set p.expires_at (executed acquire w false) =
                simp e at h in
              h'.1)
      go (executed renew w true) e =
          simp (e, receive)
            (let h' : LeaseAt now owned p.is_set p.expires_at (executed renew w true) =
                simp e at h in
              lead-IsLeased now owned w p h'.0 (h'.2 refl))
      go (executed renew w false) e = simp (e, receive) (stand_down-IsLeased now owned p)

  fail_call-IsLeased :
      (now owned : ℕ) (c : Call) (p : Process)
      → (c ≢ release → Covered owned p.is_set p.expires_at)
      → IsLeased now owned (fail_call c p)
  unfolding fail_call
  fail_call-IsLeased now owned release p h = stand_down-IsLeased now owned p
  fail_call-IsLeased now owned acquire p h = elim (Bool-cases p.is_set) [
    | inl e ↦ simp e (λ _. h (λ k. absurd cc) e)
    | inr e ↦ simp e (stand_down-IsLeased now owned p)
  ]
  fail_call-IsLeased now owned renew p h = elim (Bool-cases p.is_set) [
    | inl e ↦ simp e (λ _. h (λ k. absurd cc) e)
    | inr e ↦ simp e (stand_down-IsLeased now owned p)
  ]

  pub fail-IsLeased :
      (now owned : ℕ) (p : Process) → IsLeased now owned p → IsLeased now owned (fail p)
  unfolding fail
  fail-IsLeased now owned p h = go p.phase refl
    where
      go : (ph : Phase) → p.phase ≡ ph → IsLeased now owned (fail p)
      go asleep e = simp (e, fail) (simp e at h)
      go (sent c) e = simp (e, fail) (fail_call-IsLeased now owned c p (λ _. simp e at h))
      go (executed release w g) e =
          simp (e, fail) (fail_call-IsLeased now owned release p (λ k. absurd (k refl)))
      go (executed acquire w g) e =
          simp (e, fail)
            (let h' : LeaseAt now owned p.is_set p.expires_at (executed acquire w g) =
                simp e at h in
              fail_call-IsLeased now owned acquire p (λ _. h'.1))
      go (executed renew w g) e =
          simp (e, fail)
            (let h' : LeaseAt now owned p.is_set p.expires_at (executed renew w g) = simp e at h in
              fail_call-IsLeased now owned renew p (λ _. h'.1))

  pub tick-LeaseAt :
      (now owned : ℕ) (b : Bool) (x : ℕ) (ph : Phase)
      → IsInTime delay (now + 1) ph
      → LeaseAt now owned b x ph
      → LeaseAt (now + 1) owned b x ph
  tick-LeaseAt now owned b x asleep t h = h
  tick-LeaseAt now owned b x (sent c) t h = h
  tick-LeaseAt now owned b x (executed release w g) t h = (t, h.1)
  tick-LeaseAt now owned b x (executed acquire w g) t h = (t, h.1, h.2)
  tick-LeaseAt now owned b x (executed renew w g) t h = (t, h.1, h.2)

  -- The lock is that of the one process that owns it, and every process is covered.
  pub record IsSafe (s : State) : Type 0 where
    pub exclusive :
        (r : ℕ)
        → s.now < s.owned_until r
        → s.lock ≡ some (record { holder = r; until = s.owned_until r })
    pub bounded : (r : ℕ) → s.owned_until r ≤ s.now + leader_ttl_ms
    pub leased : (r : ℕ) → IsLeased s.now (s.owned_until r) (s.processes r)

  -- A step of one process alone.
  pub local-IsSafe :
      (p : ℕ) (x : Process) (s : State)
      → IsLeased s.now (s.owned_until p) x
      → IsSafe s
      → IsSafe (record s { processes = at p x s.processes })
  local-IsSafe p x s h v = record {
    exclusive = v.exclusive;
    bounded = v.bounded;
    leased = λ r. elim (Bool-cases (r == p)) [
      | inl e ↦ rw (e, (==_iff r p).0 e) h
      | inr e ↦ rw e (v.leased r)
    ];
  }

  -- The lock goes to `p`, which no other process owns.
  pub grant-IsSafe :
      (p : ℕ) (s : State)
      → IsSafe s
      → ((r : ℕ) → (r == p) ≡ false → s.owned_until r ≤ s.now)
      → (c : Call)
      → IsLeased s.now
          (s.now + leader_ttl_ms)
          (record (s.processes p) { phase = executed c s.now true })
      → IsSafe (note p c true (grant p s))
  grant-IsSafe p s v others c h = record {
    exclusive = λ r lt. elim (Bool-cases (r == p)) [
      | inl e ↦ rw (e, (==_iff r p).0 e) refl
      | inr e ↦
          absurd (let lt' : s.now < s.owned_until r = rw e at lt in omega (arith, others r e, lt'))
    ];
    bounded = λ r. ground (arith, v.bounded r);
    leased = λ r. elim (Bool-cases (r == p)) [ inl e ↦ rw e h | inr e ↦ rw e (v.leased r) ];
  }

  pub drop-IsSafe :
      (p : ℕ) (s : State)
      → IsSafe s
      → ((r : ℕ) → (r == p) ≡ false → s.owned_until r ≤ s.now)
      → IsSafe (note p release true (drop p s))
  drop-IsSafe p s v others = record {
    exclusive = λ r lt. elim (Bool-cases (r == p)) [
      | inl e ↦ absurd (let lt' : s.now < s.now = rw e at lt in omega (arith, lt'))
      | inr e ↦
          absurd (let lt' : s.now < s.owned_until r = rw e at lt in omega (arith, others r e, lt'))
    ];
    bounded = λ r. ground (arith, v.bounded r);
    leased = λ r. elim (Bool-cases (r == p)) [
      | inl e ↦ rw e (omega arith, inr (omega arith))
      | inr e ↦ rw e (v.leased r)
    ];
  }
