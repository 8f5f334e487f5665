-- ===== src/Admin/Nuclear.antt =====
-- What /metadata/nuclear-cleanup of master/admin_routes.py keeps.
use dip.Prelude.{
  ◌≡◌, refl, sym, ap, ◌∙◌, List, [], ◌∷◌, none, some, Bool, true, false, not, ◌&&◌, ◌⊎◌, ◌==◌,
  Result, ok, raise, if◌then◌else◌, map, keep_if, arith, inl, inr, Bool-cases, Text, codes, text_eq,
  text_eq_refl, text_eq_comm, text_eq→eq, starts_with, is_among, without, distinct,
}
use dip.Redis.{Entry, missing, Mapping, Field, Value, put_all, added, hset, expire, execute}
use dip.Jobstore.{job_ttl_seconds}
use dip.Admin.{
  Database, Body, Request, get_or, job_key, is_job_key, job_ids_from_keys, require_admin_token,
  scan_jobs, back_up, restore, nuclear_cleanup,
}
use dip.Admin.Classes.{
  is_among-without, is_among-distinct, is_among-keep_if, is_among-job_keys, is_among-job_ids,
  is_among-no_job_key,
}
use dip.Admin.Cleanup.{is_authorized, require_admin_token_cases}

abbrev NoRepeat : List Text → Type 0
NoRepeat [] = Unit {0}
NoRepeat (t ∷ ts) = (is_among t ts ≡ false) × NoRepeat ts

without-NoRepeat : (t : Text) (ts : List Text) → NoRepeat ts → NoRepeat (without t ts)
without-NoRepeat t [] h = tt
without-NoRepeat t (u ∷ us) h = elim (Bool-cases (text_eq t u)) [
  | inl e ↦ rw e (without-NoRepeat t us h.1)
  | inr e ↦ rw e (rw (is_among-without u t us, h.0) refl, without-NoRepeat t us h.1)
]

distinct-NoRepeat : (ts : List Text) → NoRepeat (distinct ts)
distinct-NoRepeat [] = tt
distinct-NoRepeat (t ∷ ts) = (
  ground (arith, is_among-without t t (distinct ts), text_eq_refl t),
  without-NoRepeat t (distinct ts) (distinct-NoRepeat ts),
)

-- The hash is there as it was, for a whole TTL.
pub record IsRestored (old new : Entry) : Type 0 where
  pub present : new.present ≡ true
  pub fields : (f : Field) → new.fields f ≡ old.fields f
  pub size : new.size ≡ old.size
  pub ttl : new.ttl ≡ some job_ttl_seconds

-- The body says `confirm_nuclear: true`.
abbrev pub is_confirmed : Result Body → Bool
is_confirmed (raise e) = false
is_confirmed (ok body) = get_or false body.confirm_nuclear

module _ (D : Database) where
  open D use {State, entry, command, flushdb, scan, hgetall}

  -- The key is among the keys, and holds a hash with fields.
  abbrev backs_up : Text → List Text → State → Bool
  backs_up k ks s = is_among k ks && not ((entry k s).size == 0)

  abbrev pub Kept : Bool → Entry → Entry → Type 0
  Kept kept old new = ((kept ≡ true) × IsRestored old new) ⊎ ((kept ≡ false) × (new ≡ missing))

  entry-restored :
      (k k' : Text) (m : Mapping) (t : State)
      → entry k (command k' (expire job_ttl_seconds) (command k' (hset m) t)) ≡ (
          if text_eq k k'
          then execute (expire job_ttl_seconds) (execute (hset m) (entry k t))
          else entry k t)
  entry-restored k k' m t = elim (Bool-cases (text_eq k k')) [
    | inl e ↦
        let same = text_eq→eq k k' e in
        rw (e, sym same, D.entry-command, text_eq_refl k, D.entry-command, text_eq_refl k) refl
    | inr e ↦
        rw (e, D.entry-command, text_eq_comm k' k, e, D.entry-command, text_eq_comm k' k, e) refl
  ]

  restore-elsewhere :
      (k : Text) (ks : List Text) (s t : State)
      → is_among k ks ≡ false
      → entry k (restore D (back_up D ks s) t) ≡ entry k t
  unfolding back_up restore
  restore-elsewhere k [] s t h = refl
  restore-elsewhere k (k' ∷ ks) s t h =
      go (hgetall k' s) refl (λ t'. restore-elsewhere k ks s t' (ground (arith, h)))
    where
      go :
          (m : Mapping)
          → hgetall k' s ≡ m
          → ((t' : State) → entry k (restore D (back_up D ks s) t') ≡ entry k t')
          → entry k (restore D (back_up D (k' ∷ ks) s) t) ≡ entry k t
      go [] e rest = rw (e, back_up) (rest t)
      go (f ∷ m) e rest =
          let other : text_eq k k' ≡ false = ground (arith, h) in
          rw (e, back_up, restore) (rest _ ∙ entry-restored k k' (f ∷ m) t ∙ rw other refl)

  -- HGETALL shows no field exactly if the hash has none.
  size_of_nothing : (k : Text) (s : State) → hgetall k s ≡ [] → ((entry k s).size == 0) ≡ true
  size_of_nothing k s e = ground (arith, D.hgetall_size k s, ap (λ m. added m (λ g. none)) e)

  size_of_some :
      (k : Text) (s : State) (f : Field) (v : Value) (m : Mapping)
      → hgetall k s ≡ (f, v) ∷ m
      → ((entry k s).size == 0) ≡ false
  size_of_some k s f v m e = ground (arith, D.hgetall_size k s, ap (λ m'. added m' (λ g. none)) e)

  expire-IsRestored :
      (k : Text) (s t : State) (m : Mapping)
      → hgetall k s ≡ m
      → entry k t ≡ missing
      → IsRestored (entry k s) (execute (expire job_ttl_seconds) (execute (hset m) (entry k t)))
  expire-IsRestored k s t m e gone = rw gone (record {
    present = refl;
    fields = λ f. ap (λ m'. put_all m' (λ g. none) f) (sym e) ∙ D.hgetall_fields k s f;
    size = ground (arith, D.hgetall_size k s, ap (λ m'. added m' (λ g. none)) e);
    ttl = refl;
  })

  restore-Kept :
      (k : Text) (ks : List Text) (s t : State)
      → NoRepeat ks
      → entry k t ≡ missing
      → Kept (backs_up k ks s) (entry k s) (entry k (restore D (back_up D ks s) t))
  unfolding back_up restore
  restore-Kept k [] s t n gone = inr (refl, gone)
  restore-Kept k (k' ∷ ks) s t n gone = go (hgetall k' s) refl (λ t'. restore-Kept k ks s t' n.1)
    where
      go :
          (m : Mapping)
          → hgetall k' s ≡ m
          → ((t' : State)
              → entry k t' ≡ missing
              → Kept (backs_up k ks s) (entry k s) (entry k (restore D (back_up D ks s) t')))
          → Kept
              (backs_up k (k' ∷ ks) s)
              (entry k s)
              (entry k (restore D (back_up D (k' ∷ ks) s) t))
      go [] e rest = elim (Bool-cases (text_eq k k')) [
        | inl same ↦
            let empty = size_of_nothing k s (ap (λ u. hgetall u s) (text_eq→eq k k' same) ∙ e) in
            rw (e, back_up)
              (elim (rest t gone) [
                | inl kept ↦ absurd (ground (arith, kept.0, empty))
                | inr left ↦ inr (ground (arith, empty), left.1)
              ])
        | inr other ↦ rw (e, back_up, other) (rest t gone)
      ]
      go ((f, v) ∷ m) e rest = elim (Bool-cases (text_eq k k')) [
        | inl same ↦
            let eq = text_eq→eq k k' same in
            let shown = ap (λ u. hgetall u s) eq ∙ e in
            let filled = size_of_some k s f v m shown in
            let once : is_among k ks ≡ false = ap (λ u. is_among u ks) eq ∙ n.0 in
            let holds = restore-elsewhere k ks s _ once ∙ entry-restored k k' ((f, v) ∷ m) t in
            rw (e, back_up, restore, holds, same)
              (inl (ground (arith, filled), expire-IsRestored k s t ((f, v) ∷ m) shown gone))
        | inr other ↦
            rw (e, back_up, restore, other)
              (rest _ (entry-restored k k' ((f, v) ∷ m) t ∙ rw other gone))
      ]

  -- The key is a job's key, the scan shows it, and its hash has fields.
  abbrev pub is_backed_up : Text → State → Bool
  is_backed_up k s = is_job_key k && is_among k (scan s) && not ((entry k s).size == 0)

  among_job_keys :
      (k : Text) (xs : List Text)
      → is_among k
          (distinct (map job_key (job_ids_from_keys (keep_if (starts_with (codes "job:")) xs))))
        ≡ (is_job_key k && is_among k xs)
  among_job_keys k xs =
      let ys = keep_if (starts_with (codes "job:")) xs in
      is_among-distinct k (map job_key (job_ids_from_keys ys))
      ∙ elim (Bool-cases (starts_with (codes "job:") k)) [
        | inl e ↦
            is_among-job_keys k e (job_ids_from_keys ys)
            ∙ is_among-job_ids k e ys
            ∙ is_among-keep_if is_job_key k ys
            ∙ rw (is_among-keep_if (starts_with (codes "job:")) k xs) (ground (arith, e))
        | inr e ↦ is_among-no_job_key k (job_ids_from_keys ys) e ∙ ground (arith, e)
      ]

  -- Behind the guard, with the confirmation.
  nuclear_cleanup_confirmed :
      (request : Request) (s : State)
      → is_confirmed request.json ≡ true
      → (k : Text) → Kept (is_backed_up k s) (entry k s) (entry k (nuclear_cleanup D request s).0)
  unfolding nuclear_cleanup
  nuclear_cleanup_confirmed request s confirmed k = go request.json refl
    where
      keys : List Text
      keys = distinct (map job_key (job_ids_from_keys (scan_jobs D s)))

      go :
          (json : Result Body)
          → request.json ≡ json
          → Kept (is_backed_up k s) (entry k s) (entry k (nuclear_cleanup D request s).0)
      go (raise e) j = let h : false ≡ true = rw j at confirmed in absurd cc
      go (ok body) j =
          let yes' : get_or false body.confirm_nuclear ≡ true = rw j at confirmed in
          simp (j, nuclear_cleanup, yes')
            (rw (sym (among_job_keys k (scan s)))
              (restore-Kept k keys s (flushdb s) (distinct-NoRepeat _) (D.entry-flushdb k s)))

  nuclear_cleanup_unconfirmed :
      (request : Request) (s : State)
      → is_confirmed request.json ≡ false
      → (nuclear_cleanup D request s).0 ≡ s
  unfolding nuclear_cleanup
  nuclear_cleanup_unconfirmed request s unconfirmed = go request.json refl
    where
      go : (json : Result Body) → request.json ≡ json → (nuclear_cleanup D request s).0 ≡ s
      go (raise e) j = simp (j, nuclear_cleanup) refl
      go (ok body) j =
          let no' : get_or false body.confirm_nuclear ≡ false = rw j at unconfirmed in
          simp (j, nuclear_cleanup, no') refl

  -- A request to /metadata/nuclear-cleanup that is authorized and confirmed leaves each job hash that
  -- the scan showed with the fields that it had and a whole TTL, and no other key at all; any other
  -- request changes nothing.
  pub nuclear_cleanup-Kept :
      (token : Text) (request : Request) (s : State)
      → let after = (require_admin_token token request (nuclear_cleanup D request) s).0 in
        ((is_authorized token request && is_confirmed request.json ≡ true)
          × ((k : Text) → Kept (is_backed_up k s) (entry k s) (entry k after)))
        ⊎ ((is_authorized token request && is_confirmed request.json ≡ false) × (after ≡ s))
  nuclear_cleanup-Kept token request s =
      elim (require_admin_token_cases token request (nuclear_cleanup D request) s) [
        | inr out ↦ inr (rw out.0 refl, out.1)
        | inl let_in ↦ elim (Bool-cases (is_confirmed request.json)) [
          | inl confirmed ↦ inl (
            rw (let_in.0, confirmed) refl,
            rw let_in.1 (nuclear_cleanup_confirmed request s confirmed),
          )
          | inr unconfirmed ↦ inr (
            rw (let_in.0, unconfirmed) refl,
            rw let_in.1 (nuclear_cleanup_unconfirmed request s unconfirmed),
          )
        ]
      ]
