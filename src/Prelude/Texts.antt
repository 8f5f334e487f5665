-- ===== src/Prelude/Texts.antt =====
-- Texts and bytes as lists of code points, with the tests of Python on them.
use Prim.Native.Nat.{ℕ, zero, suc}
use Prim.Native.Char.{code}
use Prim.Native.String.{String}
use mathlib.Core.Path.{◌≡◌, refl, ap}
use mathlib.Core.Bool.{Bool, true, false, ◌&&◌, ◌||◌}
use mathlib.Core.List.{List, [], ◌∷◌, ◌++◌}
use native.Mathlib.Omega.{arith}
use dip.Prelude.Tests.{◌==◌, if◌then◌else◌}

abbrev pub Text : Type 0
Text = List ℕ

-- The code points of a literal.
abbrev pub codes : String → Text
codes String.[] = []
codes (String.◌∷◌ c s) = code c ∷ codes s

abbrev pub text_eq : Text → Text → Bool
text_eq [] [] = true
text_eq [] (b ∷ bs) = false
text_eq (a ∷ as') [] = false
text_eq (a ∷ as') (b ∷ bs) = a == b && text_eq as' bs

-- `text.startswith(prefix)`
abbrev pub starts_with : Text → Text → Bool
starts_with [] text = true
starts_with (s ∷ ss) [] = false
starts_with (s ∷ ss) (c ∷ cs) = s == c && starts_with ss cs

-- `text.endswith(suffix)`
abbrev pub ends_with : Text → Text → Bool
ends_with suffix [] = text_eq suffix []
ends_with suffix (c ∷ cs) = text_eq suffix (c ∷ cs) || ends_with suffix cs

-- `text[n:]`
abbrev pub drop : ℕ → Text → Text
drop zero text = text
drop (suc n) [] = []
drop (suc n) (c ∷ cs) = drop n cs

-- `text[:n]`
abbrev pub take : ℕ → Text → Text
take zero text = []
take (suc n) [] = []
take (suc n) (c ∷ cs) = c ∷ take n cs

-- `text in texts`
abbrev pub is_among : Text → List Text → Bool
is_among t [] = false
is_among t (u ∷ us) = text_eq t u || is_among t us

abbrev pub without : Text → List Text → List Text
without t [] = []
without t (u ∷ us) = if text_eq t u then without t us else u ∷ without t us

-- The first of each group of equal texts: a set, or the keys of a dict.
abbrev pub distinct : List Text → List Text
distinct [] = []
distinct (t ∷ ts) = t ∷ without t (distinct ts)

pub text_eq_refl : (t : Text) → text_eq t t ≡ true
text_eq_refl [] = refl
text_eq_refl (c ∷ cs) = ground (arith, text_eq_refl cs)

pub text_eq→eq : (t u : Text) → text_eq t u ≡ true → t ≡ u
text_eq→eq [] [] h = refl
text_eq→eq [] (b ∷ bs) h = cc
text_eq→eq (a ∷ as') [] h = cc
text_eq→eq (a ∷ as') (b ∷ bs) h = ground (arith, text_eq→eq as' bs)

pub text_eq_comm : (t u : Text) → text_eq t u ≡ text_eq u t
text_eq_comm [] [] = refl
text_eq_comm [] (b ∷ bs) = refl
text_eq_comm (a ∷ as') [] = refl
text_eq_comm (a ∷ as') (b ∷ bs) = ground (arith, text_eq_comm as' bs)

pub text_eq_right : (t u v : Text) → text_eq t u ≡ true → text_eq v t ≡ text_eq v u
text_eq_right t u v h = ap (text_eq v) (text_eq→eq t u h)

pub starts_with-append : (prefix rest : Text) → starts_with prefix (prefix ++ rest) ≡ true
starts_with-append [] rest = refl
starts_with-append (c ∷ cs) rest = ground (arith, starts_with-append cs rest)

pub ends_with_self : (t : Text) → ends_with t t ≡ true
ends_with_self [] = refl
ends_with_self (c ∷ cs) = ground (arith, text_eq_refl (c ∷ cs))

pub ends_with-append : (start suffix : Text) → ends_with suffix (start ++ suffix) ≡ true
ends_with-append [] suffix = ends_with_self suffix
ends_with-append (c ∷ cs) suffix = ground (arith, ends_with-append cs suffix)
