-- ===== src/Tests/Parts.antt =====
-- The theorems on single parts of the master and its store, at concrete inputs.
use dip.Prelude.{
  ℕ, ◌+◌, ◌≤◌, ◌≡◌, ◌⊎◌, refl, List, [], ◌∷◌, none, some, true, false, ◌==◌, ok, raise, value_error,
  if◌then◌else◌, arith,
}
use dip.Imaging.{Geometry, layout, tile_geometries}
use dip.Imaging.Layout.{coverage, coverage-layout, IsLayout, tile_geometries-IsLayout}
use dip.Redis.{missing, incr}
use dip.RateLimit.{Limits, answers}
use dip.RateLimit.Window.{fresh, answers-promised}
use dip.RateLimit.Bound.{in_any_window, let_through, in_any_window-answers}
use dip.Leader.Overlap.{is_leader-overlap}
use dip.Leader.Tests.{two_leaders, two_leaders-Reachable, first_leads, second_leads}
use dip.Heartbeat
use dip.Heartbeat.{get_active_workers, monitor_heartbeats}
use dip.Heartbeat.Liveness.{no_beats, get_active_workers-last_beat}
use dip.Retry.{Faults, answered, applied_late, applied_lost, dropped_late, client_command}
use dip.Retry.Once.{IsApplied, client_command-IsApplied}
use dip.Redis.{hset, Field, Value}
use dip.Retry.Reply.{hset-applied_late}
use dip.Tests.{some_info}

coverage-layout_example : coverage 70 3 (layout 75 40 32) ≡ 0
coverage-layout_example =
    coverage-layout 75 40 32 2 0 6 3 (omega arith) (omega arith) (omega arith) (omega arith)

abbrev two_a_minute : Limits
two_a_minute = record { rate_limit = 2; rate_window = 60 }

abbrev four_requests : List (ℕ × ℕ)
four_requests = (1, 0) ∷ (1, 10) ∷ (1, 20) ∷ (1, 65) ∷ []

answers-promised_example :
    answers two_a_minute four_requests (fresh two_a_minute) ≡ true ∷ true ∷ false ∷ true ∷ []
answers-promised_example =
    answers-promised two_a_minute 0 four_requests
      (omega arith, (omega arith, (omega arith, (omega arith, tt))))

in_any_window-answers_example :
    in_any_window two_a_minute 65
      (let_through 1 four_requests (answers two_a_minute four_requests (fresh two_a_minute)))
    ≤ 2
in_any_window-answers_example =
    in_any_window-answers two_a_minute 0 1 65 four_requests
      (omega arith, (omega arith, (omega arith, (omega arith, tt))))

is_leader-overlap_example :
    ((two_leaders.owned_until 0 ≤ two_leaders.now) ⊎ (two_leaders.owned_until 1 ≤ two_leaders.now))
    × (two_leaders.now ≤ two_leaders.owned_until 0 + 0)
    × (two_leaders.now ≤ two_leaders.owned_until 1 + 0)
is_leader-overlap_example =
    is_leader-overlap 0 two_leaders 0 1 two_leaders-Reachable refl first_leads second_leads

-- The first attempt times out and its second sending loses the connection behind it, the second is
-- answered.
abbrev three_faults : Faults
three_faults attempt = if attempt == 0 then (dropped_late, applied_lost) else (answered, answered)

client_command-IsApplied_example :
    IsApplied incr 3 three_faults missing (client_command 3 incr three_faults missing)
client_command-IsApplied_example = client_command-IsApplied incr 3 three_faults missing

abbrev tile_side : ℕ
tile_side = 32

tile_geometries-IsLayout_example :
    ((tile_side ≡ 0) × (tile_geometries 75 40 tile_side ≡ raise value_error))
    ⊎ ((gs : List Geometry) × (tile_geometries 75 40 tile_side ≡ ok gs)
        × IsLayout 75 40 tile_side gs)
tile_geometries-IsLayout_example = tile_geometries-IsLayout 75 40 tile_side

-- Worker 1 is heard at 100, and once with no timestamp; the heartbeat of worker 2 is an old one.
abbrev heartbeats : List (ℕ × Heartbeat.Polled)
heartbeats =
    (100, Heartbeat.heartbeat (some 1) (some 100))
    ∷ (105, Heartbeat.heartbeat (some 2) (some 5))
    ∷ (106, Heartbeat.heartbeat (some 1) none)
    ∷ []

get_active_workers-last_beat_example :
    get_active_workers 110 (1 ∷ 2 ∷ []) (monitor_heartbeats 15 heartbeats no_beats) ≡ 1 ∷ []
get_active_workers-last_beat_example = get_active_workers-last_beat 15 110 heartbeats (1 ∷ 2 ∷ [])

abbrev late_then_answered : Faults
late_then_answered attempt = (applied_late, answered)

hset-applied_late_example :
    (client_command 3
      (hset ((Field.tile 0, Value.tile_info some_info) ∷ []))
      late_then_answered
      missing).returned
    ≡ ok (some 0)
hset-applied_late_example =
    hset-applied_late ((Field.tile 0, Value.tile_info some_info) ∷ []) missing 3 late_then_answered
      (omega arith) refl
