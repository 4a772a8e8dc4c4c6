-- ===== src/Connection/Closing/Tests.antt =====
-- The controller run on small inputs: it retries with a probe, at most twice.
use xbin.Common.{◌≡◌, ◌≤◌, ◌*◌, ◌+◌, refl, true, none, some, List, [], ◌∷◌, ◌++◌, arith}
use xbin.Connection.{
  authorized, connected, reconnecting, new, set_state, is_current, clear_reconnect_timer,
  clear_connect_timer, clear_join_timer, clear_attempt_timers, cancel_probe, is_current_probe,
  close_socket, drop_socket, open_socket, connect, start, stop, mark_joined, schedule_reconnect,
  reconnect_after_resync, socket_opened,
}
use xbin.Connection.Delay.{Options, backoff_delay, backoff_delay-bounds}
use xbin.Connection.Closing.{
  retry_or_exhaust, probe_before_reconnect, let_go, respond, answer_to, act_on, handle_close,
  probe_answered, fire_reconnect, Input, step, run, start_called, resync_called, stop_called,
  joined_called, opened, closed, answered, reconnect_fired, connect_fired,
}
use xbin.Connection.Closing.Safety.{IsSafe, new-IsSafe, still-IsSafe}
use xbin.Connection.Closing.Truth.{IsTrue}
use xbin.Connection.Closing.Status.{new-IsTrue, calm_run, state_told}
use xbin.Connection.Closing.Ending.{Silent, Closed, stopped-Silent, close_settled}
use xbin.Connection.Text.{mentions_auth}

abbrev options : Options
options = record {
  has_probe = true;
  retry_base_ms = 250;
  retry_max_ms = 5000;
  max_reconnect_attempts = 2;
}

abbrev join_once : List Input
join_once = start_called true ∷ opened 1 ∷ joined_called ∷ []

abbrev probed : List Input
probed = start_called true ∷ opened 1 ∷ joined_called ∷ closed 0 true 1 none none ∷ []

abbrev rejoined : List Input
rejoined =
    start_called true
    ∷ opened 1
    ∷ joined_called
    ∷ closed 0 true 1 none none
    ∷ answered 0 true 1 authorized
    ∷ reconnect_fired true 3
    ∷ opened 2
    ∷ joined_called
    ∷ []

-- A resynchronization while the probe is out, and a socket that joins before the probe is answered.
abbrev overtaken : List Input
overtaken =
    start_called true
    ∷ opened 1
    ∷ joined_called
    ∷ closed 0 true 1 none none
    ∷ resync_called true
    ∷ reconnect_fired true 3
    ∷ opened 2
    ∷ joined_called
    ∷ []

-- What the runs lead to.
record Facts : Type 0 where
  rejoined_calm : calm_run options new rejoined ≡ true
  rejoined_state : (run options new rejoined).state ≡ connected
  stopped_run : (run options new (start_called true ∷ stop_called ∷ [])).stopped ≡ true
  joined_calm : calm_run options new join_once ≡ true
  joined_current : is_current 1 (run options new join_once) ≡ true
  overtaken_state : (run options new overtaken).state ≡ connected
  late_state :
      (run options new (overtaken ++ (answered 0 true 1 authorized ∷ []))).state ≡ reconnecting
  late_joined : (run options new (overtaken ++ (answered 0 true 1 authorized ∷ []))).joined ≡ true

facts : Facts
unfolding run calm_run step start connect open_socket set_state clear_reconnect_timer
    clear_connect_timer clear_join_timer clear_attempt_timers cancel_probe close_socket drop_socket
    stop mark_joined schedule_reconnect reconnect_after_resync socket_opened is_current
    is_current_probe handle_close let_go answer_to respond act_on probe_before_reconnect
    retry_or_exhaust probe_answered fire_reconnect
facts = record {
  rejoined_calm = refl;
  rejoined_state = refl;
  stopped_run = refl;
  joined_calm = refl;
  joined_current = refl;
  overtaken_state = refl;
  late_state = refl;
  late_joined = refl;
}

still-IsSafe_example : IsSafe (run options new rejoined)
still-IsSafe_example = still-IsSafe options rejoined new-IsSafe

state_told_example : IsTrue (run options new rejoined)
state_told_example = state_told options rejoined facts.rejoined_calm new-IsSafe new-IsTrue

stopped-Silent_example : Silent (run options new (start_called true ∷ stop_called ∷ [])) (
    run options
      (run options new (start_called true ∷ stop_called ∷ []))
      (connect_fired 1 ∷ opened 1 ∷ []))
stopped-Silent_example =
    stopped-Silent options (connect_fired 1 ∷ opened 1 ∷ []) refl facts.stopped_run
      (still-IsSafe options (start_called true ∷ stop_called ∷ []) new-IsSafe)

close_settled_example : Closed options true (run options new join_once) (
    handle_close options 0 true 1
      (some 1008)
      (some "Password required")
      (run options new join_once))
unfolding mentions_auth
close_settled_example =
    close_settled options 0 true 1 (some 1008) (some "Password required") facts.joined_current
      (state_told options join_once facts.joined_calm new-IsSafe new-IsTrue)

-- An answer that comes after the next socket has joined: the owner is told that the controller is reconnecting, with the
-- joined socket still held.
late_answer_run :
    ((run options new (overtaken ++ (answered 0 true 1 authorized ∷ []))).state ≡ reconnecting)
    × ((run options new (overtaken ++ (answered 0 true 1 authorized ∷ []))).joined ≡ true)
late_answer_run = (facts.late_state, facts.late_joined)

-- Half way: the delay is the base.
backoff_delay_run : backoff_delay options 4503599627370496 1 ≡ 250
unfolding backoff_delay
backoff_delay_run = refl

backoff_delay-bounds_example :
    (4 * 500 ≤ 10 * backoff_delay options 4503599627370496 1 + 5)
    × (10 * backoff_delay options 4503599627370496 1 ≤ 6 * 500 + 5)
    × (10 * backoff_delay options 4503599627370496 1 ≤ 12 * 5000 + 5)
backoff_delay-bounds_example = backoff_delay-bounds options 4503599627370496 1 (omega arith)
