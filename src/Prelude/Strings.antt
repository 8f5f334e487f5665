-- ===== src/Prelude/Strings.antt =====
-- Whole strings, compared.
use Prim.Native.String.{String}
use text.Mathlib.Text.{◌==◌}
use text.Mathlib.TextEquality.{eq_iff}
use mathlib.Core.Path.{◌≡◌, refl}
use mathlib.Core.Bool.{Bool, true}

abbrev pub string_eq : String → String → Bool
string_eq s t = s == t

pub string_eq→eq : (s t : String) → string_eq s t ≡ true → s ≡ t
string_eq→eq s t h = (eq_iff s t).0 h

pub string_eq_refl : (s : String) → string_eq s s ≡ true
string_eq_refl s = (eq_iff s s).1 refl
