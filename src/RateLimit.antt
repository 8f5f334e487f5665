-- ===== src/RateLimit.antt =====
-- master/rate_limit.py: the decorator that bounds the requests of a client.
pub mod Window
pub mod Bound
use dip.Prelude.{
  ℕ, ◌+◌, ◌%◌, List, [], ◌∷◌, ◌++◌, Option, none, some, Bool, true, false, ◌||◌, ltb, leb, ◌==◌,
  if◌then◌else◌, keep_if, length,
}

-- RATE_LIMIT and RATE_WINDOW.
pub record Limits : Type 0 where
  pub rate_limit : ℕ
  pub rate_window : ℕ

-- `request_counts`, by client address, and `_rate_limit_calls`. An address is a number.
pub record Limiter : Type 0 where
  pub request_counts : ℕ → Option (List ℕ)
  pub calls : ℕ

abbrev sweep_every_n_calls : ℕ
sweep_every_n_calls = 500

-- `now - t < RATE_WINDOW`
abbrev pub is_recent : ℕ → ℕ → ℕ → Bool
is_recent rate_window now t = ltb now (t + rate_window)

abbrev pub any_recent : ℕ → ℕ → List ℕ → Bool
any_recent rate_window now [] = false
any_recent rate_window now (t ∷ ts) = is_recent rate_window now t || any_recent rate_window now ts

abbrev pub sweep_entry : ℕ → ℕ → Option (List ℕ) → Option (List ℕ)
sweep_entry rate_window now none = none
sweep_entry rate_window now (some timestamps) =
    if any_recent rate_window now timestamps then some timestamps else none

pub sweep_stale_ips : ℕ → ℕ → (ℕ → Option (List ℕ)) → ℕ → Option (List ℕ)
sweep_stale_ips rate_window now request_counts ip = sweep_entry rate_window now (request_counts ip)

-- A `defaultdict(list)`.
abbrev pub stored : Option (List ℕ) → List ℕ
stored none = []
stored (some timestamps) = timestamps

abbrev pub assign : ℕ → List ℕ → (ℕ → Option (List ℕ)) → ℕ → Option (List ℕ)
assign ip timestamps request_counts i = if i == ip then some timestamps else request_counts i

-- The body under the lock: the state after it, and whether the request is let through.
pub rate_limit : Limits → ℕ → ℕ → Limiter → Limiter × Bool
unfolding sweep_stale_ips
rate_limit l ip now s =
    let pruned = keep_if (is_recent l.rate_window now) (stored (s.request_counts ip)) in
    if leb l.rate_limit (length pruned)
    then (record s { request_counts = assign ip pruned s.request_counts }, false)
    else let counts = assign ip (pruned ++ now ∷ []) s.request_counts in
      let calls = s.calls + 1 in
      (
        record {
          request_counts =
              if calls % sweep_every_n_calls == 0
              then sweep_stale_ips l.rate_window now counts
              else counts;
          calls = calls;
        },
        true,
      )

-- The answers to a sequence of requests, each an address and the clock.
pub answers : Limits → List (ℕ × ℕ) → Limiter → List Bool
unfolding rate_limit
answers l [] s = []
answers l ((ip, now) ∷ requests) s =
    (rate_limit l ip now s).1 ∷ answers l requests (rate_limit l ip now s).0
