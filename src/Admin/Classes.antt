-- ===== src/Admin/Classes.antt =====
-- Which keys master/admin_routes.py takes for orphans.
use dip.Prelude.{
  ◌≡◌, refl, sym, ap, ◌∙◌, subst, List, [], ◌∷◌, ◌++◌, Bool, true, false, not, ◌&&◌, ◌||◌, ◌⊎◌,
  keep_if, map, arith, inl, inr, Bool-cases, Text, codes, text_eq, text_eq_refl, text_eq→eq,
  text_eq_comm, text_eq_right, starts_with, drop, is_among, without, distinct,
}
use dip.Admin.{
  job_key, is_job_key, job_ids_from_keys, is_tile_tracking, is_system, is_counter, classify_keys,
}

is_among-append :
    (k : Text) (xs ys : List Text) → is_among k (xs ++ ys) ≡ (is_among k xs || is_among k ys)
is_among-append k [] ys = refl
is_among-append k (x ∷ xs) ys = ground (arith, is_among-append k xs ys)

pub is_among-keep_if :
    (p : Text → Bool) (k : Text) (xs : List Text)
    → is_among k (keep_if p xs) ≡ (is_among k xs && p k)
is_among-keep_if p k [] = refl
is_among-keep_if p k (x ∷ xs) = elim (Bool-cases (text_eq k x)) [
  | inl e ↦
      subst (λ y. is_among k (keep_if p (y ∷ xs)) ≡ (is_among k (y ∷ xs) && p k)) (text_eq→eq k x e)
        (here (Bool-cases (p k)) (is_among-keep_if p k xs))
  | inr e ↦ ground (arith, e, is_among-keep_if p k xs)
]
  where
    here :
        (p k ≡ true) ⊎ (p k ≡ false)
        → is_among k (keep_if p xs) ≡ (is_among k xs && p k)
        → is_among k (keep_if p (k ∷ xs)) ≡ (is_among k (k ∷ xs) && p k)
    here b ih = ground (arith, b, ih, text_eq_refl k)

pub is_among-without :
    (k t : Text) (xs : List Text) → is_among k (without t xs) ≡ (is_among k xs && not (text_eq t k))
is_among-without k t [] = refl
is_among-without k t (x ∷ xs) = ground (arith, is_among-without k t xs, text_eq_right k x t)

pub is_among-distinct : (k : Text) (xs : List Text) → is_among k (distinct xs) ≡ is_among k xs
is_among-distinct k [] = refl
is_among-distinct k (x ∷ xs) =
    ground (arith, is_among-without k x (distinct xs), is_among-distinct k xs, text_eq_comm k x)

-- A key is a job's key exactly if it is "job:" and the id.
text_eq-job_key :
    (k jid : Text)
    → text_eq k (job_key jid) ≡ (starts_with (codes "job:") k && text_eq (drop 4 k) jid)
text_eq-job_key [] jid = refl
text_eq-job_key (a ∷ []) jid = ground arith
text_eq-job_key (a ∷ b ∷ []) jid = ground arith
text_eq-job_key (a ∷ b ∷ c ∷ []) jid = ground arith
text_eq-job_key (a ∷ b ∷ c ∷ d ∷ rest) jid = ground arith

pub job_key-drop : (u : Text) → starts_with (codes "job:") u ≡ true → u ≡ job_key (drop 4 u)
job_key-drop u h =
    text_eq→eq u (job_key (drop 4 u))
      (ground (arith, h, text_eq-job_key u (drop 4 u), text_eq_refl (drop 4 u)))

module _ (k : Text) (prefixed : starts_with (codes "job:") k ≡ true) where
  pub is_among-job_keys :
      (jids : List Text) → is_among k (map job_key jids) ≡ is_among (drop 4 k) jids
  is_among-job_keys [] = refl
  is_among-job_keys (jid ∷ jids) =
      ground (arith, prefixed, text_eq-job_key k jid, is_among-job_keys jids)

  text_eq-drop : (u : Text) → is_job_key u ≡ true → text_eq (drop 4 k) (drop 4 u) ≡ text_eq k u
  text_eq-drop u h =
      let u' = job_key-drop u (ground (arith, h)) in
      let same : text_eq k (job_key (drop 4 u)) ≡ text_eq (drop 4 k) (drop 4 u) =
        ground (arith, prefixed, text_eq-job_key k (drop 4 u)) in
      sym same ∙ ap (text_eq k) (sym u')

  pub is_among-job_ids :
      (xs : List Text)
      → is_among (drop 4 k) (job_ids_from_keys xs) ≡ is_among k (keep_if is_job_key xs)
  unfolding job_ids_from_keys
  is_among-job_ids [] = refl
  is_among-job_ids (x ∷ xs) = elim (Bool-cases (is_job_key x)) [
    | inl e ↦ rw (e, text_eq-drop x e, is_among-job_ids xs) refl
    | inr e ↦ rw e (is_among-job_ids xs)
  ]

-- The four classes that are no orphans.
abbrev pub is_known : Text → Bool
is_known k = is_job_key k || (is_tile_tracking k || (is_system k || is_counter k))

pub is_among-no_job_key :
    (k : Text) (jids : List Text)
    → starts_with (codes "job:") k ≡ false
    → is_among k (map job_key jids) ≡ false
is_among-no_job_key k [] h = refl
is_among-no_job_key k (jid ∷ jids) h =
    ground (arith, h, text_eq-job_key k jid, is_among-no_job_key k jids h)

pub job_keys-classify_keys :
    (k : Text) (all_keys : List Text)
    → is_among k (classify_keys all_keys).job_keys ≡ (is_among k all_keys && is_job_key k)
unfolding classify_keys
job_keys-classify_keys k all_keys = elim (Bool-cases (starts_with (codes "job:") k)) [
  | inl e ↦
      is_among-job_keys k e (distinct (job_ids_from_keys all_keys))
      ∙ is_among-distinct (drop 4 k) (job_ids_from_keys all_keys)
      ∙ is_among-job_ids k e all_keys
      ∙ is_among-keep_if is_job_key k all_keys
  | inr e ↦ ground (arith, e, is_among-no_job_key k (distinct (job_ids_from_keys all_keys)))
]

in_no_class :
    (a j t s c : Bool)
    → (a && not ((a && j) || ((a && t) || ((a && s) || (a && c)))))
      ≡ (a && not (j || (t || (s || c))))
in_no_class true j t s c = refl
in_no_class false j t s c = refl

-- A key of the scan is an orphan exactly if it is in none of the classes.
pub orphaned_keys-classify_keys :
    (k : Text) (all_keys : List Text)
    → is_among k (classify_keys all_keys).orphaned_keys ≡ (is_among k all_keys && not (is_known k))
unfolding classify_keys
orphaned_keys-classify_keys k all_keys =
    let c = classify_keys all_keys in
    let counters = c.counter_keys in
    let systems = c.system_keys ++ counters in
    let tiles = c.tile_tracking_keys ++ systems in
    is_among-keep_if (λ u. not (is_among u (c.job_keys ++ tiles))) k all_keys
    ∙ rw
        (
          is_among-append k c.job_keys tiles,
          is_among-append k c.tile_tracking_keys systems,
          is_among-append k c.system_keys counters,
          job_keys-classify_keys k all_keys,
          is_among-keep_if is_tile_tracking k all_keys,
          is_among-keep_if is_system k all_keys,
          is_among-keep_if is_counter k all_keys,
        )
        (in_no_class (is_among k all_keys) (is_job_key k) (is_tile_tracking k) (is_system k)
          (is_counter k))
