-- ===== src/Retry/Idempotent.antt =====
-- The commands that `RedisClient` calls idempotent are.
use dip.Prelude.{
  ◌+◌, ◌≡◌, ◌∙◌, refl, sym, ap, [], ◌∷◌, Option, some, true, if◌then◌else◌, arith, inl, inr, ◌⊎◌,
  Bool-cases, ==-refl,
}
use dip.Redis.{
  Field, Value, index, field_eq, Mapping, Command, hset, hincrby, rpush, incr, sadd, expire, delete,
  Entry, put, put_all, is_none, added, execute,
}
use dip.Retry.{is_idempotent}

-- The last value that a mapping gives to a field, or what it was.
abbrev pub last : Mapping → Field → Option Value → Option Value
last [] g o = o
last ((f, v) ∷ m) g o = last m g (if field_eq f g then some v else o)

put_all-last :
    (m : Mapping) (fields : Field → Option Value) (g : Field)
    → put_all m fields g ≡ last m g (fields g)
put_all-last [] fields g = refl
put_all-last ((f, v) ∷ m) fields g = put_all-last m (put f v fields) g

last-cases :
    (m : Mapping) (g : Field)
    → ((o o' : Option Value) → last m g o ≡ last m g o') ⊎ ((o : Option Value) → last m g o ≡ o)
last-cases [] g = inr (λ o. refl)
last-cases ((f, v) ∷ m) g = elim (last-cases m g) [
  | inl h ↦ inl (λ o o'. h _ _)
  | inr h ↦ elim (Bool-cases (field_eq f g)) [
    | inl e ↦ inl (λ o o'. rw e refl)
    | inr e ↦ inr (λ o. rw e (h o))
  ]
]

last-twice : (m : Mapping) (g : Field) (o : Option Value) → last m g (last m g o) ≡ last m g o
last-twice m g o = elim (last-cases m g) [ inl h ↦ h _ _ | inr h ↦ h _ ]

put_all-twice :
    (m : Mapping) (fields : Field → Option Value) → put_all m (put_all m fields) ≡ put_all m fields
put_all-twice m fields = λ i g. pointwise g i
  where
    pointwise : (g : Field) → put_all m (put_all m fields) g ≡ put_all m fields g
    pointwise g =
        put_all-last m (put_all m fields) g
        ∙ ap (last m g) (put_all-last m fields g)
        ∙ last-twice m g (fields g)
        ∙ sym (put_all-last m fields g)

-- Every field of the mapping is there.
abbrev pub IsSetIn : (Field → Option Value) → Mapping → Type 0
IsSetIn fields [] = Unit {0}
IsSetIn fields ((f, v) ∷ m) = (is_none (fields f) ≡ 0) × IsSetIn fields m

put-keeps :
    (f g : Field) (v : Value) (fields : Field → Option Value)
    → is_none (fields g) ≡ 0
    → is_none (put f v fields g) ≡ 0
put-keeps f g v fields h = elim (Bool-cases (field_eq f g)) [ inl e ↦ rw e refl | inr e ↦ rw e h ]

IsSetIn-put :
    (f : Field) (v : Value) (fields : Field → Option Value) (m : Mapping)
    → IsSetIn fields m
    → IsSetIn (put f v fields) m
IsSetIn-put f v fields [] h = tt
IsSetIn-put f v fields ((g, w) ∷ m) h = (put-keeps f g v fields h.0, IsSetIn-put f v fields m h.1)

put_all-keeps :
    (m : Mapping) (fields : Field → Option Value) (g : Field)
    → is_none (fields g) ≡ 0
    → is_none (put_all m fields g) ≡ 0
put_all-keeps [] fields g h = h
put_all-keeps ((f, v) ∷ m) fields g h =
    put_all-keeps m (put f v fields) g (put-keeps f g v fields h)

pub put_all-IsSetIn : (m : Mapping) (fields : Field → Option Value) → IsSetIn (put_all m fields) m
put_all-IsSetIn [] fields = tt
put_all-IsSetIn ((f, v) ∷ m) fields = (
  put_all-keeps m (put f v fields) f (simp (==-refl (index f)) refl),
  put_all-IsSetIn m (put f v fields),
)

pub added-IsSetIn :
    (m : Mapping) (fields : Field → Option Value) → IsSetIn fields m → added m fields ≡ 0
added-IsSetIn [] fields h = refl
added-IsSetIn ((f, v) ∷ m) fields h =
    omega (arith, h.0, added-IsSetIn m (put f v fields) (IsSetIn-put f v fields m h.1))

-- A command that the code calls idempotent leaves its key, when it is applied once more, exactly as
-- the first time: HSET of any mapping, EXPIRE and DEL.
pub execute-is_idempotent :
    (c : Command) (e : Entry) → is_idempotent c ≡ true → execute c (execute c e) ≡ execute c e
execute-is_idempotent (hset m) e h =
    ap (λ n. record (execute (hset m) e) { fields = put_all m (put_all m e.fields); size = n })
      sizes
    ∙ ap (λ fs. record (execute (hset m) e) { fields = fs }) (put_all-twice m e.fields)
  where
    sizes : (e.size + added m e.fields) + added m (put_all m e.fields) ≡ e.size + added m e.fields
    sizes = omega (arith, added-IsSetIn m (put_all m e.fields) (put_all-IsSetIn m e.fields))
execute-is_idempotent (expire seconds) e h = elim (Bool-cases e.present) [
  | inl there ↦ simp there refl
  | inr gone ↦ simp gone refl
]
execute-is_idempotent delete e h = refl
execute-is_idempotent (hincrby f n) e h = cc
execute-is_idempotent (rpush v) e h = cc
execute-is_idempotent incr e h = cc
execute-is_idempotent (sadd t) e h = cc
