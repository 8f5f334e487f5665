-- ===== src/Prelude/Filters.antt =====
-- What a comprehension with a test keeps, and the values of `range(n)`.
use Prim.Native.Nat.{ℕ, zero, suc, ◌+◌, ◌≤◌, ◌<◌}
use mathlib.Core.Path.{◌≡◌, subst}
use mathlib.Core.Bool.{Bool, true}
use mathlib.Core.List.{List, [], ◌∷◌}
use mathlib.Core.Logic.{◌⊎◌, inl, inr}
use native.Mathlib.Omega.{arith}
use dip.Prelude.Tests.{Bool-cases}
use dip.Prelude.Lists.{keep_if, All}

-- `start, start + 1, ...`, `n` values.
abbrev pub upto : ℕ → ℕ → List ℕ
upto zero start = []
upto (suc n) start = start ∷ upto n (start + 1)

eq_or_lt : (a t : ℕ) → a ≤ t → (a ≡ t) ⊎ (a < t)
eq_or_lt a t h = omega arith

pub All-upto {κ} :
    (P : ℕ → Type κ) (n a : ℕ) → ((t : ℕ) → a ≤ t → t < a + n → P t) → All P (upto n a)
All-upto P zero a h = tt
All-upto P (suc n) a h = (
  h a (omega arith) (omega arith),
  All-upto P n (a + 1) (λ t lo hi. h t (omega arith) (omega arith)),
)

pub upto-All {κ} : (P : ℕ → Type κ) (n a t : ℕ) → All P (upto n a) → a ≤ t → t < a + n → P t
upto-All P zero a t h lo hi = absurd (omega arith)
upto-All P (suc n) a t h lo hi = elim (eq_or_lt a t lo) [
  | inl e ↦ subst P e h.0
  | inr lt ↦ upto-All P n (a + 1) t h.1 (omega arith) (omega arith)
]

module _ {ℓ} {A : Type ℓ} (p : A → Bool) where
  -- Every kept item passes the test, and keeps what was known of it.
  pub All-keep_if {κ} :
      (P : A → Type κ) (xs : List A) → All P xs → All (λ x. P x × (p x ≡ true)) (keep_if p xs)
  All-keep_if P [] h = tt
  All-keep_if P (x ∷ xs) h = elim (Bool-cases (p x)) [
    | inl e ↦ rw e ((h.0, e), All-keep_if P xs h.1)
    | inr e ↦ rw e (All-keep_if P xs h.1)
  ]

  -- What holds of all kept items holds of every item that passes.
  pub keep_if-All {κ} :
      (P : A → Type κ) (xs : List A) → All P (keep_if p xs) → All (λ x. p x ≡ true → P x) xs
  keep_if-All P [] h = tt
  keep_if-All P (x ∷ xs) h = elim (Bool-cases (p x)) [
    | inl e ↦ let h' : All P (x ∷ keep_if p xs) = rw e at h in ((λ _. h'.0), keep_if-All P xs h'.1)
    | inr e ↦
        let h' : All P (keep_if p xs) = rw e at h in
        ((λ e'. absurd (grind (arith, e, e'))), keep_if-All P xs h')
  ]
