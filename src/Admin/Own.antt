-- ===== src/Admin/Own.antt =====
-- The keys that the program writes, and that the cleanup of master/admin_routes.py spares.
use dip.Prelude.{
  ◌≡◌, refl, ◌++◌, Bool, true, false, ◌&&◌, ◌||◌, if◌then◌else◌, contains, Text, codes, ends_with,
  ends_with-append, ap, ◌∙◌, is_among,
}
use dip.Redis.{missing}
use dip.Admin.{
  Database, Request, job_key, is_job_key, is_tile_tracking, require_admin_token,
  cleanup_orphaned_keys,
}
use dip.Admin.Classes.{is_known}
use dip.Admin.Cleanup.{is_authorized, is_real_run, entry-cleanup_orphaned_keys}

-- The keys of app/jobstore.py, master/heartbeat.py and app/leader.py. A job id is a UUID.
pub data IsOwn (k : Text) : Type 0 where
  job : (jid : Text) → contains b':' jid ≡ false → k ≡ job_key jid → IsOwn k
  tiles : (jid : Text) → k ≡ job_key jid ++ codes ":tiles" → IsOwn k
  latencies : (jid : Text) → k ≡ job_key jid ++ codes ":latencies" → IsOwn k
  abandoned : (jid : Text) → k ≡ job_key jid ++ codes ":abandoned" → IsOwn k
  attempts :
      (jid tile : Text)
      → k ≡ ((job_key jid ++ codes ":tile:") ++ tile) ++ codes ":attempts"
      → IsOwn k
  heartbeat : (worker_id : Text) → k ≡ codes "heartbeat:" ++ worker_id → IsOwn k
  leader : k ≡ codes "dip:master:leader" → IsOwn k

or_left : (a b : Bool) → a ≡ true → (a || b) ≡ true
or_left a b h = rw h refl

or_right : (a b : Bool) → b ≡ true → (a || b) ≡ true
or_right true b h = refl
or_right false b h = h

tracked : (k : Text) → is_tile_tracking k ≡ true → is_known k ≡ true
tracked k h = or_right (is_job_key k) _ (or_left (is_tile_tracking k) _ h)

module _ (start : Text) where
  tiles_known : is_known (start ++ codes ":tiles") ≡ true
  tiles_known =
      let k = start ++ codes ":tiles" in
      tracked k (or_left (ends_with (codes ":tiles") k) _ (ends_with-append start (codes ":tiles")))

  latencies_known : is_known (start ++ codes ":latencies") ≡ true
  latencies_known =
      let k = start ++ codes ":latencies" in
      tracked k (
        or_right (ends_with (codes ":tiles") k) _ (
          or_left (ends_with (codes ":latencies") k) _
            (ends_with-append start (codes ":latencies"))))

  attempts_known : is_known (start ++ codes ":attempts") ≡ true
  attempts_known =
      let k = start ++ codes ":attempts" in
      tracked k (
        or_right (ends_with (codes ":tiles") k) _ (
          or_right (ends_with (codes ":latencies") k) _ (
            or_left (ends_with (codes ":attempts") k) _
              (ends_with-append start (codes ":attempts")))))

  abandoned_known : is_known (start ++ codes ":abandoned") ≡ true
  abandoned_known =
      let k = start ++ codes ":abandoned" in
      tracked k (
        or_right (ends_with (codes ":tiles") k) _ (
          or_right (ends_with (codes ":latencies") k) _ (
            or_right (ends_with (codes ":attempts") k) _
              (ends_with-append start (codes ":abandoned")))))

IsOwn-is_known : (k : Text) → IsOwn k → is_known k ≡ true
IsOwn-is_known k (job jid plain e) =
    ap is_known e ∙ or_left (is_job_key (job_key jid)) _ (rw plain refl)
IsOwn-is_known k (tiles jid e) = ap is_known e ∙ tiles_known (job_key jid)
IsOwn-is_known k (latencies jid e) = ap is_known e ∙ latencies_known (job_key jid)
IsOwn-is_known k (abandoned jid e) = ap is_known e ∙ abandoned_known (job_key jid)
IsOwn-is_known k (attempts jid tile e) =
    ap is_known e ∙ attempts_known ((job_key jid ++ codes ":tile:") ++ tile)
IsOwn-is_known k (heartbeat worker_id e) =
    let k' = codes "heartbeat:" ++ worker_id in
    ap is_known e ∙ or_right (is_job_key k') _ (or_right (is_tile_tracking k') _ refl)
IsOwn-is_known k (leader e) = ap is_known e

never {ℓ} : {A : Type ℓ} (a b c : Bool) (x y : A) → (if a && (b && (c && false)) then x else y) ≡ y
never true true true x y = refl
never true true false x y = refl
never true false c x y = refl
never false b c x y = refl

module _ (D : Database) where
  -- No request to /metadata/cleanup changes a key that the program writes for a job, a tile, a
  -- heartbeat or the leader, whatever the scan shows and whether the job is still there or not.
  pub cleanup_orphaned_keys-IsOwn :
      (token : Text) (request : Request) (k : Text) (s : D.State)
      → IsOwn k
      → D.entry k (require_admin_token token request (cleanup_orphaned_keys D request) s).0
        ≡ D.entry k s
  cleanup_orphaned_keys-IsOwn token request k s own =
      entry-cleanup_orphaned_keys D token request k s
      ∙ rw (IsOwn-is_known k own) (
          never (is_authorized token request) (is_real_run request.json) (is_among k (D.scan s))
            missing (D.entry k s))
