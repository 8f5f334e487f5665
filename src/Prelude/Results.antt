-- ===== src/Prelude/Results.antt =====
-- Python exceptions as values: `raise` carries the class of the exception.
pub data Error : Type 0 where
  value_error key_error index_error s3_error buffer_error timeout_error redis_error other_error :
      Error

pub data Result {ℓ} (A : Type ℓ) : Type ℓ where
  ok : A → Result A
  raise : Error → Result A

infixl 5 ◌>>=◌
abbrev pub ◌>>=◌ {ℓ κ} : {A : Type ℓ} {B : Type κ} → Result A → (A → Result B) → Result B
ok a >>= f = f a
raise e >>= f = raise e
