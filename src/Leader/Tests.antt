-- ===== src/Leader/Tests.antt =====
-- A run of app/leader.py in which a leader's renewal fails: its release lets another process in
-- before it has stood down.
use dip.Prelude.{ℕ, ◌≡◌, refl, true}
use dip.Leader.{
  State, is_leader, at, wake, serve, serve_call, receive, fail, fail_call, wakes, serves, receives,
  fails, start, Reachable, starts, steps,
}

abbrev woken : ℕ → State → State
woken p s = record s { processes = at p (wake (s.processes p)) s.processes }

abbrev received : ℕ → State → State
received p s = record s { processes = at p (receive s.now (s.processes p)) s.processes }

abbrev failed : ℕ → State → State
failed p s = record s { processes = at p (fail (s.processes p)) s.processes }

-- The first process acquires the lock, and its renewal raises: the server executes its release.
abbrev released : State
released = serve 0 (failed 0 (woken 0 (received 0 (serve 0 (woken 0 start)))))

-- The second process acquires the lock before the first has the reply.
abbrev pub two_leaders : State
two_leaders = received 1 (serve 1 (woken 1 released))

released-Reachable : Reachable 0 released
released-Reachable =
    steps _ _
      (steps _ _
        (steps _ _
          (steps _ _ (steps _ _ (steps _ _ starts (wakes 0 start)) (serves 0 (woken 0 start)))
            (receives 0 (serve 0 (woken 0 start))))
          (wakes 0 (received 0 (serve 0 (woken 0 start)))))
        (fails 0 (woken 0 (received 0 (serve 0 (woken 0 start))))))
      (serves 0 (failed 0 (woken 0 (received 0 (serve 0 (woken 0 start))))))

pub two_leaders-Reachable : Reachable 0 two_leaders
two_leaders-Reachable =
    steps _ _
      (steps _ _ (steps _ _ released-Reachable (wakes 1 released)) (serves 1 (woken 1 released)))
      (receives 1 (serve 1 (woken 1 released)))

pub first_leads : is_leader two_leaders.now (two_leaders.processes 0) ≡ true
unfolding wake serve serve_call receive fail fail_call
first_leads = refl

pub second_leads : is_leader two_leaders.now (two_leaders.processes 1) ≡ true
unfolding wake serve serve_call receive fail fail_call
second_leads = refl
