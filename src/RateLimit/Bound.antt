-- ===== src/RateLimit/Bound.antt =====
-- The bound that master/rate_limit.py puts on the requests of one address in any window.
use dip.Prelude.{
  ℕ, ◌+◌, ◌≤◌, ◌≡◌, ◌∙◌, refl, ap, subst, List, [], ◌∷◌, ◌++◌, Bool, true, false, ◌&&◌, ltb, leb,
  ◌==◌, if◌then◌else◌, keep_if, length, arith, inl, inr, Bool-cases, ==_iff,
}
use dip.RateLimit.{Limits, is_recent, answers}
use dip.RateLimit.Window.{Accepted, admits, accept, promised, IsOrdered, fresh, answers-promised}

-- The times at which requests of `ip` were let through.
abbrev pub let_through : ℕ → List (ℕ × ℕ) → List Bool → List ℕ
let_through ip ((i, now) ∷ requests) (true ∷ bs) =
    if i == ip then now ∷ let_through ip requests bs else let_through ip requests bs
let_through ip ((i, now) ∷ requests) (false ∷ bs) = let_through ip requests bs
let_through ip requests bs = []

-- The time `t` lies in the window that ends with `end`.
abbrev pub in_window : ℕ → ℕ → ℕ → Bool
in_window rate_window end t = leb t end && ltb end (t + rate_window)

abbrev pub in_any_window : Limits → ℕ → List ℕ → ℕ
in_any_window l end ts = length (keep_if (in_window l.rate_window end) ts)

module _ (l : Limits) where
  window-append :
      (end t : ℕ) (xs : List ℕ)
      → in_any_window l end (xs ++ t ∷ [])
        ≡ in_any_window l end xs + (if in_window l.rate_window end t then 1 else 0)
  window-append end t [] = ground arith
  window-append end t (x ∷ xs) = ground (arith, window-append end t xs)

  window-recent :
      (end now : ℕ) (xs : List ℕ)
      → now ≤ end
      → in_any_window l end xs ≤ length (keep_if (is_recent l.rate_window now) xs)
  window-recent end now [] h = omega arith
  window-recent end now (x ∷ xs) h = ground (arith, window-recent end now xs h)

  append_assoc : (xs : List ℕ) (t : ℕ) (ys : List ℕ) → (xs ++ t ∷ []) ++ ys ≡ xs ++ t ∷ ys
  append_assoc [] t ys = refl
  append_assoc (x ∷ xs) t ys = ap (λ zs. x ∷ zs) (append_assoc xs t ys)

  append_nil : (xs : List ℕ) → xs ++ [] ≡ xs
  append_nil [] = refl
  append_nil (x ∷ xs) = ap (λ zs. x ∷ zs) (append_nil xs)

  accept-window :
      (ip now end : ℕ) (accepted : Accepted)
      → admits l ip now accepted ≡ true
      → in_any_window l end (accepted ip) ≤ l.rate_limit
      → in_any_window l end (accepted ip ++ now ∷ []) ≤ l.rate_limit
  accept-window ip now end accepted e h = elim (Bool-cases (leb now end)) [
    | inl past ↦ ground (
      arith,
      e,
      past,
      window-append end now (accepted ip),
      window-recent end now (accepted ip) (ground (arith, past)),
    )
    | inr ahead ↦ ground (arith, ahead, h, window-append end now (accepted ip))
  ]

  promised-window :
      (ip end : ℕ) (requests : List (ℕ × ℕ)) (accepted : Accepted)
      → in_any_window l end (accepted ip) ≤ l.rate_limit
      → in_any_window l end (accepted ip ++ let_through ip requests (promised l requests accepted))
        ≤ l.rate_limit
  promised-window ip end [] accepted h = rw (append_nil (accepted ip)) h
  promised-window ip end ((i, now) ∷ requests) accepted h =
      elim (Bool-cases (admits l i now accepted)) [
        | inr full ↦ rw full (promised-window ip end requests accepted h)
        | inl free ↦ elim (Bool-cases (i == ip)) [
          | inl here ↦
              let mine : accept i now accepted ip ≡ accepted ip ++ now ∷ [] =
                ground (arith, here) in
              let free' : admits l ip now accepted ≡ true =
                subst (λ k. admits l k now accepted ≡ true) ((==_iff i ip).0 here) free in
              rw (free, here)
                (subst (λ ts. in_any_window l end ts ≤ l.rate_limit)
                  (ap
                      (λ ts.
                        ts ++ let_through ip requests (promised l requests (accept i now accepted)))
                      mine
                    ∙ append_assoc (accepted ip) now _)
                  (promised-window ip end requests (accept i now accepted)
                    (rw mine (accept-window ip now end accepted free' h))))
          | inr away ↦
              let mine : accept i now accepted ip ≡ accepted ip = ground (arith, away) in
              rw (free, away)
                (subst (λ ts. in_any_window l end ts ≤ l.rate_limit)
                  (ap
                    (λ ts.
                      ts ++ let_through ip requests (promised l requests (accept i now accepted)))
                    mine)
                  (promised-window ip end requests (accept i now accepted) (rw mine h)))
        ]
      ]

  -- With a clock that does not go back from one request to the next, in any window of the length
  -- RATE_WINDOW, ended at any time, at most RATE_LIMIT requests of an address are let through by
  -- a process, whatever is requested.
  pub in_any_window-answers :
      (clock ip end : ℕ) (requests : List (ℕ × ℕ))
      → IsOrdered clock requests
      → in_any_window l end (let_through ip requests (answers l requests (fresh l))) ≤ l.rate_limit
  in_any_window-answers clock ip end requests ordered =
      rw (answers-promised l clock requests ordered)
        (promised-window ip end requests (λ i. []) (omega arith))
