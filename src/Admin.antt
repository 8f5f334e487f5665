-- ===== src/Admin.antt =====
-- master/admin_routes.py: the guard of the routes, the classification of the keys, and the three
-- routes that delete keys. Here a key is the text that it is, since the code tests its characters.
pub mod Classes
pub mod Own
pub mod Cleanup
pub mod Nuclear
pub mod Clear
pub mod Reference
pub mod Metadata
use dip.Prelude.{
  ℕ, ◌+◌, ◌*◌, ◌≡◌, List, [], ◌∷◌, ◌++◌, Option, none, some, Bool, true, false, not, ◌&&◌, ◌||◌,
  ltb, ◌==◌, Result, ok, raise, if◌then◌else◌, keep_if, length, map, contains, Text, codes, text_eq,
  starts_with, ends_with, drop, take, is_among, distinct,
}
use dip.Redis.{
  Entry, missing, Command, execute, Mapping, Field, Value, put_all, added, hset, expire, delete,
}
use dip.Jobstore.{Job, parse_job, job_ttl_seconds}

-- The server by the text of a key: its state, what a key holds, the effect of a command, FLUSHDB, the
-- keys that a whole SCAN returns (a key may come twice), and HGETALL.
pub record Database : Type 1 where
  pub State : Type 0
  pub entry : Text → State → Entry
  pub command : Text → Command → State → State
  pub flushdb : State → State
  pub scan : State → List Text
  pub hgetall : Text → State → Mapping
  pub entry-command :
      (k k' : Text) (c : Command) (s : State)
      → entry k' (command k c s) ≡ (if text_eq k k' then execute c (entry k s) else entry k' s)
  pub entry-flushdb : (k : Text) (s : State) → entry k (flushdb s) ≡ missing
  pub hgetall_fields :
      (k : Text) (s : State) (f : Field)
      → put_all (hgetall k s) (λ g. none) f ≡ (entry k s).fields f
  pub hgetall_size : (k : Text) (s : State) → added (hgetall k s) (λ g. none) ≡ (entry k s).size

abbrev pub job_key : Text → Text
job_key jid = codes "job:" ++ jid

-- `key.startswith('job:') and ':' not in key[4:]`
abbrev pub is_job_key : Text → Bool
is_job_key key = starts_with (codes "job:") key && not (contains b':' (drop 4 key))

-- `_job_ids_from_keys`
pub job_ids_from_keys : List Text → List Text
job_ids_from_keys all_keys = map (drop 4) (keep_if is_job_key all_keys)

abbrev pub is_tile_tracking : Text → Bool
is_tile_tracking k =
    ends_with (codes ":tiles") k
    || (ends_with (codes ":latencies") k
        || (ends_with (codes ":attempts") k || ends_with (codes ":abandoned") k))

abbrev pub is_system : Text → Bool
is_system k = starts_with (codes "heartbeat:") k || text_eq k (codes "dip:master:leader")

abbrev pub is_counter : Text → Bool
is_counter k = text_eq k (codes "active_workers_count") || text_eq k (codes "active_workers")

pub record Classified : Type 0 where
  pub all_keys : List Text
  pub job_ids : List Text
  pub job_keys : List Text
  pub tile_tracking_keys : List Text
  pub system_keys : List Text
  pub counter_keys : List Text
  pub orphaned_keys : List Text

-- What `_scan_and_classify_keys` makes of the keys of its scan. The order of a set is not used.
pub classify_keys : List Text → Classified
unfolding job_ids_from_keys
classify_keys all_keys =
    let job_ids = distinct (job_ids_from_keys all_keys) in
    let job_keys = map job_key job_ids in
    let tile_tracking_keys = keep_if is_tile_tracking all_keys in
    let system_keys = keep_if is_system all_keys in
    let counter_keys = keep_if is_counter all_keys in
    let classified = job_keys ++ (tile_tracking_keys ++ (system_keys ++ counter_keys)) in
    record {
      all_keys = all_keys;
      job_ids = job_ids;
      job_keys = job_keys;
      tile_tracking_keys = tile_tracking_keys;
      system_keys = system_keys;
      counter_keys = counter_keys;
      orphaned_keys = keep_if (λ k. not (is_among k classified)) all_keys;
    }

-- The headers and the JSON of a request, as far as the routes read them: an absent field is `none`,
-- another is what Python takes it for. `raise` is a body that is no JSON.
pub record Body : Type 0 where
  pub dry_run : Option Bool
  pub confirm_nuclear : Option Bool
  pub older_than_hours : Option ℕ

pub record Request : Type 0 where
  pub admin_token : Option Text
  pub json : Result Body

pub data Response : Type 0 where
  cleaned : Bool → ℕ → ℕ → ℕ → ℕ → Response
  restored : ℕ → Response
  cleared : List Text → ℕ → Response
  refused : ℕ → Response

abbrev pub is_token : Text → Option Text → Bool
is_token token none = false
is_token token (some t) = text_eq t token

-- `require_admin_token`; ADMIN_TOKEN is empty if it is not configured.
pub require_admin_token {ℓ} : {S : Type ℓ} → Text → Request → (S → S × Response) → S → S × Response
require_admin_token token request f s =
    if text_eq token []
    then (s, refused 503)
    else (if is_token token request.admin_token then f s else (s, refused 401))

abbrev pub get_or {ℓ} : {A : Type ℓ} → A → Option A → A
get_or default none = default
get_or default (some a) = a

-- The keys that /metadata/clear deletes for a job.
abbrev pub keys_of : Text → List Text
keys_of jid =
    job_key jid ∷ (job_key jid ++ codes ":tiles") ∷ (job_key jid ++ codes ":latencies") ∷ []

-- `job_data['timestamp'] < now - older_than_hours * 3600`, in milliseconds. A hash that cannot be
-- read is logged and left.
abbrev pub is_older : ℕ → ℕ → Result (Option Job) → Bool
is_older now older_than_hours (ok (some found)) =
    ltb (found.timestamp + older_than_hours * 3_600_000) now
is_older now older_than_hours _ = false

module _ (D : Database) where
  open D use {State, entry, command, flushdb, scan, hgetall}

  -- DEL of several keys.
  pub delete_keys : List Text → State → State
  delete_keys [] s = s
  delete_keys (k ∷ ks) s = delete_keys ks (command k delete s)

  -- `cleanup_orphaned_keys`, behind the guard. Flask answers 415 for a body that is no JSON.
  pub cleanup_orphaned_keys : Request → State → State × Response
  unfolding classify_keys delete_keys
  cleanup_orphaned_keys request s = elim request.json [
    | raise e ↦ (s, refused 415)
    | ok body ↦
        let dry_run = get_or true body.dry_run in
        let found = classify_keys (scan s) in
        let orphaned = length found.orphaned_keys in
        (
          (if dry_run then s else delete_keys found.orphaned_keys s),
          cleaned dry_run orphaned (length found.job_ids) (length found.all_keys)
              (if dry_run then 0 else orphaned),
        )
  ]

  -- SCAN with MATCH 'job:*'.
  abbrev pub scan_jobs : State → List Text
  scan_jobs s = keep_if (starts_with (codes "job:")) (scan s)

  -- `job_backup`: each key once, and no empty mapping.
  pub back_up : List Text → State → List (Text × Mapping)
  back_up [] s = []
  back_up (k ∷ ks) s =
      let rest = back_up ks s in elim (hgetall k s) [ [] ↦ rest | f ∷ m ↦ (k, f ∷ m) ∷ rest ]

  -- The loop that restores.
  pub restore : List (Text × Mapping) → State → State
  restore [] s = s
  restore ((k, mapping) ∷ backup) s =
      restore backup (command k (expire job_ttl_seconds) (command k (hset mapping) s))

  -- `nuclear_cleanup`, behind the guard.
  pub nuclear_cleanup : Request → State → State × Response
  unfolding job_ids_from_keys back_up restore
  nuclear_cleanup request s = elim request.json [
    | raise e ↦ (s, refused 500)
    | ok body ↦
        if not (get_or false body.confirm_nuclear)
        then (s, refused 400)
        else let job_keys = map job_key (job_ids_from_keys (scan_jobs s)) in
          let job_backup = back_up (distinct job_keys) s in
          (restore job_backup (flushdb s), restored (length job_backup))
  ]

  -- `get_job` by the text of the id; the number of the id is not read behind it.
  pub get_job : ℕ → Text → State → Result (Option Job)
  get_job default_tile_size jid s =
      if (entry (job_key jid) s).size == 0
      then ok none
      else elim (parse_job default_tile_size 0 (entry (job_key jid) s).fields) [
        | raise e ↦ raise e
        | ok found ↦ ok (some found)
      ]

  -- The loop over the job ids.
  pub clear_jobs : ℕ → ℕ → ℕ → List Text → State → State × List Text
  unfolding get_job delete_keys
  clear_jobs default_tile_size now older_than_hours [] s = (s, [])
  clear_jobs default_tile_size now older_than_hours (jid ∷ jids) s =
      let old = is_older now older_than_hours (get_job default_tile_size jid s) in
      let (s', ids) =
        clear_jobs default_tile_size now older_than_hours jids
          (if old then delete_keys (keys_of jid) s else s) in
      (s', (if old then jid ∷ ids else ids))

  -- `clear_old_jobs`, behind the guard.
  pub clear_old_jobs : ℕ → ℕ → Request → State → State × Response
  unfolding job_ids_from_keys clear_jobs
  clear_old_jobs default_tile_size now request s = elim request.json [
    | raise e ↦ (s, refused 500)
    | ok body ↦
        let older_than_hours = get_or 24 body.older_than_hours in
        let (s', ids) =
          clear_jobs default_tile_size now older_than_hours (job_ids_from_keys (scan_jobs s)) s in
        (s', cleared (map (take 8) ids) older_than_hours)
  ]
