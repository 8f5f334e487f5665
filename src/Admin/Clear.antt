-- ===== src/Admin/Clear.antt =====
-- What /metadata/clear of master/admin_routes.py deletes.
use dip.Prelude.{
  ℕ, ◌≡◌, refl, sym, ap, ◌∙◌, ◌+◌, ◌*◌, ltb, List, [], ◌∷◌, ◌++◌, Option, none, some, Bool, true,
  false, ◌&&◌, ◌||◌, Result, ok, raise, if◌then◌else◌, contains, All, arith, inl, inr, Bool-cases,
  Text, codes, text_eq, text_eq→eq, is_among,
}
use dip.Redis.{missing}
use dip.Jobstore.{Job}
use dip.Admin.{
  Database, Body, Request, get_or, job_key, is_job_key, job_ids_from_keys, require_admin_token,
  delete_keys, scan_jobs, get_job, keys_of, is_older, clear_jobs, clear_old_jobs,
}
use dip.Admin.Cleanup.{is_authorized, require_admin_token_cases, entry-delete_keys}

-- A job id that /metadata finds has no colon.
abbrev IsPlain : Text → Type 0
IsPlain jid = contains b':' jid ≡ false

job_ids_from_keys-IsPlain : (xs : List Text) → All IsPlain (job_ids_from_keys xs)
unfolding job_ids_from_keys
job_ids_from_keys-IsPlain [] = tt
job_ids_from_keys-IsPlain (x ∷ xs) = elim (Bool-cases (is_job_key x)) [
  | inl e ↦ rw e (ground (arith, e), job_ids_from_keys-IsPlain xs)
  | inr e ↦ rw e (job_ids_from_keys-IsPlain xs)
]

plain-ne : (t u v : Text) → IsPlain t → text_eq t (u ++ b':' ∷ v) ≡ false
plain-ne [] [] v h = refl
plain-ne [] (b ∷ u) v h = refl
plain-ne (a ∷ t) [] v h = ground (arith, h)
plain-ne (a ∷ t) (b ∷ u) v h = ground (arith, plain-ne t u v)

-- The job's key is deleted only with the job.
is_among-keys_of :
    (jid' jid : Text) → IsPlain jid' → is_among (job_key jid') (keys_of jid) ≡ text_eq jid' jid
is_among-keys_of jid' jid plain =
    ground
      (arith, plain-ne jid' jid (codes "tiles") plain, plain-ne jid' jid (codes "latencies") plain)

absorb : (a b c : Bool) → b ≡ false → ((a && b) || c) ≡ c
absorb true b c h = rw h refl
absorb false b c h = refl

same_either_way {ℓ} : {A : Type ℓ} (b : Bool) (x : A) → (if b then x else x) ≡ x
same_either_way true x = refl
same_either_way false x = refl

module _ (D : Database) (d now older_than_hours : ℕ) where
  open D use {State, entry, scan}

  -- The hash of the job can be read, and its timestamp is too old.
  abbrev is_old : Text → State → Bool
  is_old jid s = is_older now older_than_hours (get_job D d jid s)

  -- The key is one of the three keys of such a job.
  abbrev clears : Text → List Text → State → Bool
  clears k [] s = false
  clears k (jid ∷ jids) s = (is_old jid s && is_among k (keys_of jid)) || clears k jids s

  is_old-same :
      (jid : Text) (s t : State)
      → entry (job_key jid) t ≡ entry (job_key jid) s
      → is_old jid t ≡ is_old jid s
  unfolding get_job
  is_old-same jid s t e = rw e refl

  is_old-missing : (jid : Text) (s : State) → entry (job_key jid) s ≡ missing → is_old jid s ≡ false
  unfolding get_job
  is_old-missing jid s e = rw e refl

  module _ (s : State) (jid : Text) where
    abbrev deleted : State
    deleted = delete_keys D (keys_of jid) s

    is_old-deleted :
        (jid' : Text)
        → IsPlain jid'
        → is_old jid' deleted ≡ (if text_eq jid' jid then false else is_old jid' s)
    is_old-deleted jid' plain =
        let now_held : entry (job_key jid') deleted
            ≡ (if text_eq jid' jid then missing else entry (job_key jid') s) =
          entry-delete_keys D (job_key jid') (keys_of jid) s
          ∙ rw (is_among-keys_of jid' jid plain) refl in
        elim (Bool-cases (text_eq jid' jid)) [
          | inl e ↦ rw e (is_old-missing jid' deleted (now_held ∙ rw e refl))
          | inr e ↦ rw e (is_old-same jid' s deleted (now_held ∙ rw e refl))
        ]

    clears-deleted :
        (k : Text) (jids : List Text)
        → All IsPlain jids
        → is_among k (keys_of jid) ≡ false
        → clears k jids deleted ≡ clears k jids s
    clears-deleted k [] plain other = refl
    clears-deleted k (jid' ∷ jids) plain other = elim (Bool-cases (text_eq jid' jid)) [
      | inl e ↦
          let other' : is_among k (keys_of jid') ≡ false =
            ap (λ j. is_among k (keys_of j)) (text_eq→eq jid' jid e) ∙ other in
          absorb (is_old jid' deleted) _ (clears k jids deleted) other'
          ∙ clears-deleted k jids plain.1 other
          ∙ sym (absorb (is_old jid' s) _ (clears k jids s) other')
      | inr e ↦ rw (is_old-deleted jid' plain.0, e, clears-deleted k jids plain.1 other) refl
    ]

  entry-clear_jobs :
      (k : Text) (jids : List Text) (s : State)
      → All IsPlain jids
      → entry k (clear_jobs D d now older_than_hours jids s).0
        ≡ (if clears k jids s then missing else entry k s)
  unfolding clear_jobs
  entry-clear_jobs k [] s plain = refl
  entry-clear_jobs k (jid ∷ jids) s plain = elim (Bool-cases (is_old jid s)) [
    | inr young ↦ rw young (entry-clear_jobs k jids s plain.1)
    | inl old ↦
        let now_held = entry-delete_keys D k (keys_of jid) s in
        rw old (
          entry-clear_jobs k jids (deleted s jid) plain.1
          ∙ elim (Bool-cases (is_among k (keys_of jid))) [
            | inl e ↦ rw (now_held, e) (same_either_way (clears k jids (deleted s jid)) missing)
            | inr e ↦ rw (e, clears-deleted s jid k jids plain.1 e, now_held, e) refl
          ])
  ]

-- The keys of a job that are to go: its hash, its tiles and its latencies.
abbrev pub is_own : Text → Text → Bool
is_own k jid =
    text_eq k (codes "job:" ++ jid)
    || (text_eq k (codes "job:" ++ jid ++ codes ":tiles")
        || text_eq k (codes "job:" ++ jid ++ codes ":latencies"))

-- A job that can be read and was created more than so many hours ago.
abbrev pub is_past : ℕ → ℕ → Result (Option Job) → Bool
is_past now hours (ok (some found)) = ltb (hours * 60 * 60 * 1_000 + found.timestamp) now
is_past now hours (ok none) = false
is_past now hours (raise e) = false

is_older-is_past :
    (now hours : ℕ) (r : Result (Option Job)) → is_older now hours r ≡ is_past now hours r
is_older-is_past now hours (ok (some found)) = ground arith
is_older-is_past now hours (ok none) = refl
is_older-is_past now hours (raise e) = refl

is_among-is_own : (k jid : Text) → is_among k (keys_of jid) ≡ is_own k jid
is_among-is_own k jid = ground arith

module _ (D : Database) (d now : ℕ) where
  open D use {State, entry, scan}

  -- The key is one of the three keys of such a job.
  abbrev pub is_past_own : ℕ → Text → List Text → State → Bool
  is_past_own hours k [] s = false
  is_past_own hours k (jid ∷ jids) s =
      (is_past now hours (get_job D d jid s) && is_own k jid) || is_past_own hours k jids s

  clears-is_past_own :
      (hours : ℕ) (k : Text) (jids : List Text) (s : State)
      → clears D d now hours k jids s ≡ is_past_own hours k jids s
  clears-is_past_own hours k [] s = refl
  clears-is_past_own hours k (jid ∷ jids) s =
      rw
        (
          is_older-is_past now hours (get_job D d jid s),
          is_among-is_own k jid,
          clears-is_past_own hours k jids s,
        )
        refl

  -- What a body asks to delete: the keys of the jobs that the scan shows and that are older than
  -- `older_than_hours`, or 24 hours.
  abbrev pub is_cleared : Text → Result Body → State → Bool
  is_cleared k (raise e) s = false
  is_cleared k (ok body) s =
      is_past_own (get_or 24 body.older_than_hours) k (job_ids_from_keys (scan_jobs D s)) s

  -- After a request to /metadata/clear a key holds what it held, unless the request is authorized
  -- and the key is job:{id}, job:{id}:tiles or job:{id}:latencies of a job that the scan shows,
  -- whose hash can be read and whose timestamp is more than the given number of hours, or 24,
  -- ago: then it is gone. The status of the job plays no part, and its abandoned set and its
  -- attempt counters stay.
  pub entry-clear_old_jobs :
      (token : Text) (request : Request) (k : Text) (s : State)
      → entry k (require_admin_token token request (clear_old_jobs D d now request) s).0 ≡ (
          if is_authorized token request && is_cleared k request.json s then missing else entry k s)
  unfolding clear_old_jobs
  entry-clear_old_jobs token request k s =
      elim (require_admin_token_cases token request (clear_old_jobs D d now request) s) [
        | inr out ↦ rw (out.0, out.1) refl
        | inl let_in ↦ rw (let_in.0, let_in.1) (go request.json refl)
      ]
    where
      go :
          (json : Result Body)
          → request.json ≡ json
          → entry k (clear_old_jobs D d now request s).0
            ≡ (if is_cleared k request.json s then missing else entry k s)
      go (raise e) j = simp (j, clear_old_jobs) refl
      go (ok body) j =
          simp (j, clear_old_jobs)
            (entry-clear_jobs D d now (get_or 24 body.older_than_hours) k
                (job_ids_from_keys (scan_jobs D s)) s (job_ids_from_keys-IsPlain (scan_jobs D s))
              ∙ ap (λ b. if b then missing else entry k s)
                  (clears-is_past_own (get_or 24 body.older_than_hours) k
                    (job_ids_from_keys (scan_jobs D s)) s))
