-- ===== src/Tests/Admin.antt =====
-- The theorems on the admin routes, at concrete inputs.
use dip.Prelude.{
  ℕ, ◌*◌, ◌/◌, ◌∷◌, [], ◌++◌, ◌≡◌, ◌⊎◌, refl, ◌&&◌, List, some, true, false, ok, Text, codes,
  text_eq, if◌then◌else◌,
}
use dip.Redis.{missing, Field, number}
use dip.Admin.{
  Request, job_key, require_admin_token, cleanup_orphaned_keys, nuclear_cleanup, clear_old_jobs,
}
use dip.Admin.Reference.{reference, Store, nothing}
use dip.Admin.Cleanup.{is_authorized, entry-cleanup_orphaned_keys}
use dip.Admin.Own.{tiles, cleanup_orphaned_keys-IsOwn}
use dip.Admin.Nuclear.{Kept, is_backed_up, is_confirmed, nuclear_cleanup-Kept}
use dip.Admin.Clear.{is_cleared, entry-clear_old_jobs}
use dip.Admin.Metadata.{get_metadata}
use dip.Admin.Metadata.Listing.{IsListing, get_metadata-IsListing}

-- Job "a1" with a timestamp and a status, its tiles, and a key that nobody knows.
abbrev a1 : Text
a1 = codes "a1"

abbrev shown_keys : List Text
shown_keys = job_key a1 ∷ (job_key a1 ++ codes ":tiles") ∷ codes "tmp" ∷ []

abbrev small_store : Store
small_store = (
  (λ k.
      if text_eq k (job_key a1)
      then (record nothing {
        mapping = (Field.timestamp, number 1000) ∷ [];
        present = true;
        ttl = some 60;
      })
      else (record nothing { present = true })),
  shown_keys,
)

abbrev secret : Text
secret = codes "s3cret"

abbrev order : Request
order = record {
  admin_token = some secret;
  json =
      ok (record { dry_run = some false; confirm_nuclear = some true; older_than_hours = some 1 });
}

entry-cleanup_orphaned_keys_example :
    reference.entry
      (codes "tmp")
      (require_admin_token secret order (cleanup_orphaned_keys reference order) small_store).0
    ≡ missing
entry-cleanup_orphaned_keys_example =
    entry-cleanup_orphaned_keys reference secret order (codes "tmp") small_store

cleanup_orphaned_keys-IsOwn_example :
    reference.entry
      (job_key a1 ++ codes ":tiles")
      (require_admin_token secret order (cleanup_orphaned_keys reference order) small_store).0
    ≡ reference.entry (job_key a1 ++ codes ":tiles") small_store
cleanup_orphaned_keys-IsOwn_example =
    cleanup_orphaned_keys-IsOwn reference secret order (job_key a1 ++ codes ":tiles") small_store
      (tiles a1 refl)

abbrev after_nuclear : Store
after_nuclear = (require_admin_token secret order (nuclear_cleanup reference order) small_store).0

nuclear_cleanup-Kept_example :
    ((is_authorized secret order && is_confirmed order.json ≡ true)
      × ((k : Text)
          → Kept reference
              (is_backed_up reference k small_store)
              (reference.entry k small_store)
              (reference.entry k after_nuclear)))
    ⊎ ((is_authorized secret order && is_confirmed order.json ≡ false)
        × (after_nuclear ≡ small_store))
nuclear_cleanup-Kept_example = nuclear_cleanup-Kept reference secret order small_store

entry-clear_old_jobs_example :
    reference.entry
      (job_key a1 ++ codes ":tiles")
      (require_admin_token secret order
        (clear_old_jobs reference 512 5_000_000 order)
        small_store).0
    ≡ (if is_authorized secret order
          && is_cleared reference 512 5_000_000
              (job_key a1 ++ codes ":tiles")
              order.json
              small_store
        then missing
        else reference.entry (job_key a1 ++ codes ":tiles") small_store)
entry-clear_old_jobs_example =
    entry-clear_old_jobs reference 512 5_000_000 secret order (job_key a1 ++ codes ":tiles")
      small_store

abbrev percent : ℕ → ℕ → ℕ
percent n m = n * 100 / m

get_metadata-IsListing_example :
    IsListing percent 6000 reference 512 small_store
      (get_metadata reference percent 512 6000 [] small_store)
get_metadata-IsListing_example = get_metadata-IsListing percent 6000 reference 512 small_store []
