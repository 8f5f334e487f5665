-- ===== src/Heartbeat.antt =====
-- master/heartbeat.py: which workers are alive, by keys in Redis that run out by themselves.
pub mod Liveness
use dip.Prelude.{
  ℕ, zero, suc, ◌+◌, ◌-◌, List, [], ◌∷◌, Option, none, some, Bool, true, false, ltb, leb, ◌==◌,
  if◌then◌else◌, keep_if,
}

-- What the key of a worker holds, and when its PX runs out. A worker id is a number, and times are
-- milliseconds.
pub record Beat : Type 0 where
  pub last_seen : ℕ
  pub expires_at : ℕ

abbrev pub Store : Type 0
Store = ℕ → Option Beat

-- SET with PX.
abbrev pub set_px : ℕ → ℕ → ℕ → ℕ → Store → Store
set_px worker_id timestamp now px store w =
    if w == worker_id
    then some (record { last_seen = timestamp; expires_at = now + px })
    else store w

-- `update`: `remaining_s <= 0` is `HEARTBEAT_TIMEOUT + timestamp <= now`.
pub update : ℕ → ℕ → ℕ → ℕ → Store → Store
update heartbeat_timeout worker_id timestamp now store =
    if leb (heartbeat_timeout + timestamp) now
    then store
    else set_px worker_id timestamp now (heartbeat_timeout + timestamp - now) store

-- A key that has run out is no key.
abbrev pub find_beat : ℕ → Option Beat → Option Beat
find_beat now none = none
find_beat now (some b) = if ltb now b.expires_at then some b else none

abbrev pub is_present : Option Beat → Bool
is_present none = false
is_present (some b) = true

-- `get_active_workers`, over the workers whose keys the scan may show.
pub get_active_workers : ℕ → List ℕ → Store → List ℕ
get_active_workers now workers store = keep_if (λ w. is_present (find_beat now (store w))) workers

-- `get_all_heartbeats`: the scan at one time, and MGET at another; what ran out between is left out.
pub get_all_heartbeats : ℕ → List ℕ → Store → List (ℕ × ℕ)
get_all_heartbeats now [] store = []
get_all_heartbeats now (w ∷ ws) store =
    let rest = get_all_heartbeats now ws store in
    elim (find_beat now (store w)) [ none ↦ rest | some b ↦ (w, b.last_seen) ∷ rest ]

-- What `consumer.poll` returns; a heartbeat may lack its keys.
pub data Polled : Type 0 where
  nothing consumer_error invalid_json : Polled
  heartbeat : Option ℕ → Option ℕ → Polled

-- The body of the loop of `monitor_heartbeats`. The timestamp 0 is false in Python.
pub monitor_once : ℕ → ℕ → Polled → Store → Store
unfolding update
monitor_once heartbeat_timeout now (heartbeat (some worker_id) (some (suc t))) store =
    update heartbeat_timeout worker_id (suc t) now store
monitor_once heartbeat_timeout now polled store = store

-- The loop, each message with the clock at which it is handled.
pub monitor_heartbeats : ℕ → List (ℕ × Polled) → Store → Store
unfolding monitor_once
monitor_heartbeats heartbeat_timeout [] store = store
monitor_heartbeats heartbeat_timeout ((now, polled) ∷ rounds) store =
    monitor_heartbeats heartbeat_timeout rounds (monitor_once heartbeat_timeout now polled store)
