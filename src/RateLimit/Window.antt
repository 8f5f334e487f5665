-- ===== src/RateLimit/Window.antt =====
-- What master/rate_limit.py promises: the limit in every window, with nothing ever forgotten.
use dip.Prelude.{
  ℕ, ◌+◌, ◌%◌, ◌≤◌, ◌≡◌, ◌∙◌, refl, sym, ap, List, [], ◌∷◌, ◌++◌, Option, none, some, Bool, true,
  false, ltb, leb, ◌==◌, if◌then◌else◌, keep_if, length, arith, inl, inr, Bool-cases, ==_iff,
  ==-refl,
}
use dip.RateLimit.{
  Limits, Limiter, is_recent, any_recent, sweep_entry, sweep_stale_ips, stored, assign, rate_limit,
  answers,
}

-- The description of the limiter that keeps every accepted time, by address.
abbrev pub Accepted : Type 0
Accepted = ℕ → List ℕ

abbrev pub admits : Limits → ℕ → ℕ → Accepted → Bool
admits l ip now accepted =
    ltb (length (keep_if (is_recent l.rate_window now) (accepted ip))) l.rate_limit

abbrev pub accept : ℕ → ℕ → Accepted → Accepted
accept ip now accepted i = if i == ip then accepted i ++ now ∷ [] else accepted i

abbrev pub admit : Limits → ℕ → ℕ → Accepted → Accepted
admit l ip now accepted = if admits l ip now accepted then accept ip now accepted else accepted

abbrev pub promised : Limits → List (ℕ × ℕ) → Accepted → List Bool
promised l [] accepted = []
promised l ((ip, now) ∷ requests) accepted =
    admits l ip now accepted ∷ promised l requests (admit l ip now accepted)

-- The clock of the requests does not go back.
abbrev pub IsOrdered : ℕ → List (ℕ × ℕ) → Type 0
IsOrdered clock [] = Unit {0}
IsOrdered clock ((ip, now) ∷ requests) = (clock ≤ now) × IsOrdered now requests

module _ (w : ℕ) where
  recent_twice :
      (now later : ℕ) (ts : List ℕ)
      → now ≤ later
      → keep_if (is_recent w later) (keep_if (is_recent w now) ts) ≡ keep_if (is_recent w later) ts
  recent_twice now later [] h = refl
  recent_twice now later (t ∷ ts) h = ground (arith, recent_twice now later ts h)

  recent-append :
      (now : ℕ) (xs ys : List ℕ)
      → keep_if (is_recent w now) (xs ++ ys)
        ≡ keep_if (is_recent w now) xs ++ keep_if (is_recent w now) ys
  recent-append now [] ys = refl
  recent-append now (x ∷ xs) ys = ground (arith, recent-append now xs ys)

  none_recent :
      (now later : ℕ) (ts : List ℕ)
      → now ≤ later
      → any_recent w now ts ≡ false
      → keep_if (is_recent w later) ts ≡ []
  none_recent now later [] h e = refl
  none_recent now later (t ∷ ts) h e = ground (arith, none_recent now later ts h)

  sweep_entry-recent :
      (now later : ℕ) (o : Option (List ℕ))
      → now ≤ later
      → keep_if (is_recent w later) (stored (sweep_entry w now o))
        ≡ keep_if (is_recent w later) (stored o)
  sweep_entry-recent now later none h = refl
  sweep_entry-recent now later (some ts) h = elim (Bool-cases (any_recent w now ts)) [
    | inl e ↦ rw e refl
    | inr e ↦ rw e (sym (none_recent now later ts h e))
  ]

module _ (l : Limits) where
  -- What the limiter still stores is, as far as it is recent, what was accepted.
  abbrev Agrees : ℕ → Limiter → Accepted → Type 0
  Agrees clock s accepted =
      (ip later : ℕ)
      → clock ≤ later
      → keep_if (is_recent l.rate_window later) (stored (s.request_counts ip))
        ≡ keep_if (is_recent l.rate_window later) (accepted ip)

  rate_limit-admits :
      (clock ip now : ℕ) (s : Limiter) (accepted : Accepted)
      → Agrees clock s accepted
      → clock ≤ now
      → (rate_limit l ip now s).1 ≡ admits l ip now accepted
  unfolding rate_limit
  rate_limit-admits clock ip now s accepted v h = rw (v ip now h, rate_limit) (ground arith)

  swept-recent :
      (now later calls : ℕ) (counts : ℕ → Option (List ℕ)) (i : ℕ)
      → now ≤ later
      → keep_if (is_recent l.rate_window later) (
          stored
            ((if calls % 500 == 0 then sweep_stale_ips l.rate_window now counts else counts) i))
        ≡ keep_if (is_recent l.rate_window later) (stored (counts i))
  unfolding sweep_stale_ips
  swept-recent now later calls counts i h = elim (Bool-cases (calls % 500 == 0)) [
    | inl e ↦ rw e (sweep_entry-recent l.rate_window now later (counts i) h)
    | inr e ↦ rw e refl
  ]

  -- A list for `ip` that agrees in what is recent may take the place of the stored one.
  assign-Agrees :
      (now ip : ℕ) (ts : List ℕ) (s : Limiter) (accepted accepted' : Accepted)
      → Agrees now s accepted
      → ((later : ℕ)
          → now ≤ later
          → keep_if (is_recent l.rate_window later) ts
            ≡ keep_if (is_recent l.rate_window later) (accepted' ip))
      → ((i : ℕ) → (i == ip) ≡ false → accepted' i ≡ accepted i)
      → Agrees now (record s { request_counts = assign ip ts s.request_counts }) accepted'
  assign-Agrees now ip ts s accepted accepted' v same others i later le =
      elim (Bool-cases (i == ip)) [
        | inl here ↦ rw (here, (==_iff i ip).0 here) (same later le)
        | inr away ↦ rw (away, others i away) (v i later le)
      ]

  rate_limit-Agrees :
      (clock ip now : ℕ) (s : Limiter) (accepted : Accepted)
      → Agrees clock s accepted
      → clock ≤ now
      → Agrees now (rate_limit l ip now s).0 (admit l ip now accepted)
  unfolding rate_limit
  rate_limit-Agrees clock ip now s accepted v h i later le =
      elim (Bool-cases (admits l ip now accepted)) [
        | inr full ↦
            let full' : leb l.rate_limit (length pruned) ≡ true =
              rw (v ip now h) (ground (arith, full)) in
            rw (full, full')
              (assign-Agrees now ip pruned s accepted accepted (λ j t b. v j t (omega arith))
                (λ t b. recent_twice l.rate_window now t _ b ∙ v ip t (omega arith)) (λ j e. refl) i
                later le)
        | inl free ↦
            let free' : leb l.rate_limit (length pruned) ≡ false =
              rw (v ip now h) (ground (arith, free)) in
            rw (free, free')
              (swept-recent now later (s.calls + 1)
                  (assign ip (pruned ++ now ∷ []) s.request_counts) i le
                ∙ assign-Agrees now ip (pruned ++ now ∷ []) s accepted (accept ip now accepted)
                    (λ j t b. v j t (omega arith))
                    (λ t b.
                      recent-append l.rate_window t pruned (now ∷ [])
                      ∙ ap (λ ts. ts ++ keep_if (is_recent l.rate_window t) (now ∷ []))
                          (recent_twice l.rate_window now t _ b ∙ v ip t (omega arith))
                      ∙ sym (recent-append l.rate_window t (accepted ip) (now ∷ []))
                      ∙ ap (keep_if (is_recent l.rate_window t)) (accept_self ip now accepted))
                    (λ j e. rw e refl) i later le)
      ]
    where
      pruned : List ℕ
      pruned = keep_if (is_recent l.rate_window now) (stored (s.request_counts ip))

      accept_self : (j t : ℕ) (a : Accepted) → a j ++ t ∷ [] ≡ accept j t a j
      accept_self j t a = rw (==-refl j) refl

  answers-Agrees :
      (clock : ℕ) (requests : List (ℕ × ℕ)) (s : Limiter) (accepted : Accepted)
      → Agrees clock s accepted
      → IsOrdered clock requests
      → answers l requests s ≡ promised l requests accepted
  unfolding answers
  answers-Agrees clock [] s accepted v ordered = refl
  answers-Agrees clock ((ip, now) ∷ requests) s accepted v ordered =
      rw (rate_limit-admits clock ip now s accepted v ordered.0, answers, promised)
        (ap (λ bs. admits l ip now accepted ∷ bs)
          (answers-Agrees now requests (rate_limit l ip now s).0 (admit l ip now accepted)
            (rate_limit-Agrees clock ip now s accepted v ordered.0) ordered.1))

  abbrev pub fresh : Limiter
  fresh = record { request_counts = λ ip. none; calls = 0 }

  -- From the empty limiter, and with a clock that does not go back, every request is answered as
  -- the description says that keeps all accepted times for ever: it is let through if and only if
  -- fewer than the limit of the requests of its address were let through within the window before
  -- it. The pruning of the lists and the sweep of stale addresses change no answer.
  pub answers-promised :
      (clock : ℕ) (requests : List (ℕ × ℕ))
      → IsOrdered clock requests
      → answers l requests fresh ≡ promised l requests (λ ip. [])
  answers-promised clock requests =
      answers-Agrees clock requests fresh (λ ip. []) (λ ip later h. refl)
