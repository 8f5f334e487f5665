-- ===== src/Admin/Cleanup.antt =====
-- What /metadata/cleanup of master/admin_routes.py deletes.
use dip.Prelude.{
  ◌≡◌, refl, ◌∙◌, List, [], ◌∷◌, Bool, true, false, not, ◌&&◌, ◌⊎◌, Result, ok, raise,
  if◌then◌else◌, arith, inl, inr, Bool-cases, Text, text_eq, text_eq_comm, is_among,
}
use dip.Redis.{missing, delete}
use dip.Admin.{
  Database, Body, Request, Response, is_token, get_or, require_admin_token, classify_keys,
  delete_keys, cleanup_orphaned_keys,
}
use dip.Admin.Classes.{is_known, orphaned_keys-classify_keys}

-- The request has the token, and the token is configured.
abbrev pub is_authorized : Text → Request → Bool
is_authorized token request = not (text_eq token []) && is_token token request.admin_token

-- The body says `dry_run: false`.
abbrev pub is_real_run : Result Body → Bool
is_real_run (raise e) = false
is_real_run (ok body) = not (get_or true body.dry_run)

-- The guard lets an authorized request through, and changes nothing for another.
pub require_admin_token_cases {ℓ} :
    {S : Type ℓ} (token : Text) (request : Request) (f : S → S × Response) (s : S)
    → ((is_authorized token request ≡ true) × (require_admin_token token request f s ≡ f s))
      ⊎ ((is_authorized token request ≡ false) × ((require_admin_token token request f s).0 ≡ s))
unfolding require_admin_token
require_admin_token_cases token request f s = elim (Bool-cases (text_eq token [])) [
  | inl e ↦ inr (rw e refl, rw e refl)
  | inr e ↦ elim (Bool-cases (is_token token request.admin_token)) [
    | inl e' ↦ inl (rw (e, e') refl, rw (e, e') refl)
    | inr e' ↦ inr (rw (e, e') refl, rw (e, e') refl)
  ]
]

module _ (D : Database) where
  open D use {State, entry, command, scan}

  pub entry-delete :
      (k k' : Text) (s : State)
      → entry k (command k' delete s) ≡ (if text_eq k k' then missing else entry k s)
  entry-delete k k' s = D.entry-command k' k delete s ∙ rw (text_eq_comm k' k) refl

  pub entry-delete_keys :
      (k : Text) (ks : List Text) (s : State)
      → entry k (delete_keys D ks s) ≡ (if is_among k ks then missing else entry k s)
  unfolding delete_keys
  entry-delete_keys k [] s = refl
  entry-delete_keys k (k' ∷ ks) s =
      ground (arith, entry-delete_keys k ks (command k' delete s), entry-delete k k' s)

  -- Behind the guard.
  entry-cleanup :
      (request : Request) (k : Text) (s : State)
      → entry k (cleanup_orphaned_keys D request s).0 ≡ (
          if is_real_run request.json && (is_among k (scan s) && not (is_known k))
          then missing
          else entry k s)
  unfolding cleanup_orphaned_keys
  entry-cleanup request k s = go request.json refl
    where
      go :
          (json : Result Body)
          → request.json ≡ json
          → entry k (cleanup_orphaned_keys D request s).0 ≡ (
              if is_real_run request.json && (is_among k (scan s) && not (is_known k))
              then missing
              else entry k s)
      go (raise e) j = simp (j, cleanup_orphaned_keys) refl
      go (ok body) j = elim (Bool-cases (get_or true body.dry_run)) [
        | inl dry ↦ simp (j, cleanup_orphaned_keys, dry) refl
        | inr wet ↦
            simp (j, cleanup_orphaned_keys, wet)
              (entry-delete_keys k (classify_keys (scan s)).orphaned_keys s
                ∙ rw (orphaned_keys-classify_keys k (scan s)) refl)
      ]

  -- After a request to /metadata/cleanup a key holds what it held, unless the request has the
  -- configured token and says `dry_run: false`, the scan showed the key, and the key is in none of
  -- the four classes: then it is gone.
  pub entry-cleanup_orphaned_keys :
      (token : Text) (request : Request) (k : Text) (s : State)
      → entry k (require_admin_token token request (cleanup_orphaned_keys D request) s).0 ≡ (
          if is_authorized token request
            && (is_real_run request.json && (is_among k (scan s) && not (is_known k)))
          then missing
          else entry k s)
  entry-cleanup_orphaned_keys token request k s =
      elim (require_admin_token_cases token request (cleanup_orphaned_keys D request) s) [
        | inl let_in ↦ rw (let_in.0, let_in.1) (entry-cleanup request k s)
        | inr out ↦ rw (out.0, out.1) refl
      ]
