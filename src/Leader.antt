-- ===== src/Leader.antt =====
-- app/leader.py: the election of one master by a lock in Redis, any number of processes at once.
pub mod Exclusion
pub mod Overlap
pub mod Tests
use dip.Prelude.{
  ℕ, ◌+◌, ◌≤◌, Option, none, some, Bool, true, false, ◌&&◌, ltb, leb, ◌==◌, if◌then◌else◌,
}

abbrev pub leader_ttl_ms : ℕ
leader_ttl_ms = 2_000

-- The lock with the token of its holder; `until` is when its PX runs out. Times are milliseconds
-- of one clock, of which each process reads only differences.
pub record Lock : Type 0 where
  pub holder : ℕ
  pub until : ℕ

-- What the election sends: SET NX PX, and the scripts that renew and release.
pub data Call : Type 0 where
  acquire renew release : Call

-- Where a process is in its loop: asleep, with a call on its way, or with a call that the server
-- executed at a time, with the reply on its way.
pub data Phase : Type 0 where
  asleep : Phase
  sent : Call → Phase
  executed : Call → ℕ → Bool → Phase

-- `_is_leader`, `_expires_at`, and the place in the loop.
pub record Process : Type 0 where
  pub is_set : Bool
  pub expires_at : ℕ
  pub phase : Phase

-- `owned_until` is no state of the program: it records until when the lock was, or is, that of a
-- process at the server.
pub record State : Type 0 where
  pub now : ℕ
  pub lock : Option Lock
  pub processes : ℕ → Process
  pub owned_until : ℕ → ℕ

abbrev pub is_leader : ℕ → Process → Bool
is_leader now p = p.is_set && ltb now p.expires_at

abbrev pub is_free : ℕ → Option Lock → Bool
is_free now none = true
is_free now (some l) = leb l.until now

-- `redis.call('get', KEYS[1]) == ARGV[1]`
abbrev pub is_held_by : ℕ → ℕ → Option Lock → Bool
is_held_by p now none = false
is_held_by p now (some l) = l.holder == p && ltb now l.until

abbrev pub at {ℓ} : {A : Type ℓ} → ℕ → A → (ℕ → A) → ℕ → A
at p a f r = if r == p then a else f r

-- The next iteration of the loop.
pub wake : Process → Process
wake p = elim p.phase [
  | asleep ↦ record p { phase = sent (if p.is_set then renew else acquire) }
  | sent c ↦ p
  | executed c when granted ↦ p
]

abbrev pub grant : ℕ → State → State
grant p s = record s {
  lock = some (record { holder = p; until = s.now + leader_ttl_ms });
  owned_until = at p (s.now + leader_ttl_ms) s.owned_until;
}

abbrev pub drop : ℕ → State → State
drop p s = record s { lock = none; owned_until = at p s.now s.owned_until }

abbrev pub note : ℕ → Call → Bool → State → State
note p c granted s = record s {
  processes = at p (record (s.processes p) { phase = executed c s.now granted }) s.processes;
}

-- The server executes a call of a process.
pub serve_call : ℕ → Call → State → State
serve_call p acquire s =
    if is_free s.now s.lock then note p acquire true (grant p s) else note p acquire false s
serve_call p renew s =
    if is_held_by p s.now s.lock then note p renew true (grant p s) else note p renew false s
serve_call p release s =
    if is_held_by p s.now s.lock then note p release true (drop p s) else note p release false s

pub serve : ℕ → State → State
unfolding serve_call
serve p s = elim (s.processes p).phase [
  | asleep ↦ s
  | sent c ↦ serve_call p c s
  | executed c when granted ↦ s
]

abbrev pub lead : ℕ → Process → Process
lead now p = record p { is_set = true; expires_at = now + leader_ttl_ms; phase = asleep }

abbrev pub stand_down : Process → Process
stand_down p = record p { is_set = false; expires_at = 0; phase = asleep }

-- What the process does with a reply: the deadline is taken from the clock at the reply.
pub receive : ℕ → Process → Process
receive now p = elim p.phase [
  | asleep ↦ p
  | sent c ↦ p
  | executed release when granted ↦ stand_down p
  | executed acquire when granted ↦ if granted then lead now p else record p { phase = asleep }
  | executed renew when granted ↦ if granted then lead now p else stand_down p
]

-- The handler of an exception: a leader sends the release, and stands down only after it.
pub fail_call : Call → Process → Process
fail_call release p = stand_down p
fail_call _ p = if p.is_set then record p { phase = sent release } else stand_down p

pub fail : Process → Process
unfolding fail_call
fail p = elim p.phase [
  | asleep ↦ p
  | sent c ↦ fail_call c p
  | executed c when granted ↦ fail_call c p
]

-- No process waits longer than `delay` for what the server has executed.
abbrev pub IsInTime : ℕ → ℕ → Phase → Type 0
IsInTime delay now asleep = Unit {0}
IsInTime delay now (sent c) = Unit {0}
IsInTime delay now (executed c when granted) = now ≤ when + delay

-- The steps of the processes, the server and the clock.
pub data Step (delay : ℕ) : State → State → Type 0 where
  wakes :
      (p : ℕ) (s : State)
      → Step delay s (record s { processes = at p (wake (s.processes p)) s.processes })
  serves : (p : ℕ) (s : State) → Step delay s (serve p s)
  receives :
      (p : ℕ) (s : State)
      → Step delay s (record s { processes = at p (receive s.now (s.processes p)) s.processes })
  fails :
      (p : ℕ) (s : State)
      → Step delay s (record s { processes = at p (fail (s.processes p)) s.processes })
  ticks :
      (s : State)
      → ((p : ℕ) → IsInTime delay (s.now + 1) (s.processes p).phase)
      → Step delay s (record s { now = s.now + 1 })

abbrev pub start : State
start = record {
  now = 0;
  lock = none;
  processes = λ p. record { is_set = false; expires_at = 0; phase = asleep };
  owned_until = λ p. 0;
}

pub data Reachable (delay : ℕ) : State → Type 0 where
  starts : Reachable delay start
  steps : (s s' : State) → Reachable delay s → Step delay s s' → Reachable delay s'
