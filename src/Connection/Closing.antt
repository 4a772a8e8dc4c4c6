-- ===== src/Connection/Closing.antt =====
-- live-connection.ts: the close of a socket, the probe before a reconnection, the timers' callbacks, and
-- the run of a controller on the inputs that reach it.
pub mod Safety
pub mod Truth
pub mod Status
pub mod Ending
mod Tests
use xbin.Common.{
  ℕ, ◌+◌, String, Bool, true, false, not, ◌&&◌, ◌||◌, Option, none, some, List, [], ◌∷◌, leb, ◌==◌,
  if◌then◌else◌, str_eq,
}
use xbin.Connection.Text.{mentions_auth, mentions_full, mentions_expired}
use xbin.Connection.Delay.{Options, backoff_delay}
use xbin.Connection.{
  State, ProbeResult, ConnectionState, Effect, connecting, connected, reconnecting, offline,
  authorized, authentication_required, room_unavailable, retry, close_status, probe_called,
  on_authentication_required, on_room_full, on_room_unavailable, on_reconnect_exhausted, set_state,
  clear_attempt_timers, is_current, is_current_probe, close_socket, connect, start, stop,
  come_online, go_offline, mark_joined, schedule_reconnect, reconnect_after_resync, send,
  socket_opened, socket_message, without, has, drop_timer, timer_socket,
}

-- `a ?? b`
abbrev pub option_or : {A : Type 0} → Option A → A → A
option_or none b = b
option_or (some a) b = a

pub retry_or_exhaust : Options → ℕ → Bool → State → State
unfolding set_state schedule_reconnect
retry_or_exhaust o draw online s =
    if leb o.max_reconnect_attempts s.attempt
    then record (set_state offline s) { log = on_reconnect_exhausted ∷ (set_state offline s).log }
    else schedule_reconnect online (backoff_delay o draw s.attempt) s

pub probe_before_reconnect : Bool → State → State
unfolding set_state
probe_before_reconnect online s =
    if s.stopped || s.probing || not online
    then (if not s.stopped && not online then set_state offline s else s)
    else (let generation = s.probe_generation + 1 in
        let busy =
          set_state reconnecting (record s { probing = true; probe_generation = generation }) in
        record busy { log = probe_called generation ∷ busy.log })

-- How a close is answered.
pub data Answer : Type 0 where
  go_quiet ask_password tell_full try_again : Answer

-- The tests of the close status, in their order.
pub answer_to : Bool → ℕ → String → Answer
answer_to online code reason =
    if not online
    then go_quiet
    else if code == 1008 && mentions_auth reason
    then ask_password
    else if code == 1013 && mentions_full reason
    then tell_full
    else if code == 1000 && str_eq reason "leaving live room"
    then go_quiet
    else if code == 1013 && mentions_expired reason
    then go_quiet
    else try_again

-- The controller lets go of a socket that has closed.
pub let_go : ℕ → String → State → State
unfolding clear_attempt_timers
let_go code reason s =
    let cleared = record (clear_attempt_timers (record s { socket = none })) { joined = false } in
    record cleared { log = close_status code reason ∷ cleared.log }

pub respond : Options → ℕ → Bool → Answer → State → State
unfolding set_state probe_before_reconnect retry_or_exhaust
respond o draw online go_quiet s = set_state offline s
respond o draw online ask_password s = record (set_state offline s) {
  log = on_authentication_required ∷ (set_state offline s).log;
}
respond o draw online tell_full s = record (set_state offline s) {
  log = on_room_full ∷ (set_state offline s).log;
}
respond o draw online try_again s =
    let counted = record s { attempt = s.attempt + 1 } in
    if o.has_probe
    then probe_before_reconnect online counted
    else retry_or_exhaust o draw online counted

-- `handleClose` on a close event of socket `id`; `event.code` and `event.reason` may be missing. That
-- the controller is stopped is excluded by `isCurrent` already.
pub handle_close : Options → ℕ → Bool → ℕ → Option ℕ → Option String → State → State
unfolding is_current let_go respond answer_to
handle_close o draw online id code reason s =
    let closed = record s { live = without id s.live } in
    if is_current id s
    then (let status = option_or code 1006 in
        let why = option_or reason "" in
        respond o draw online (answer_to online status why) (let_go status why closed))
    else closed

-- The switch on the probe's result.
pub act_on : Options → ℕ → Bool → ProbeResult → State → State
unfolding set_state retry_or_exhaust
act_on o draw online authorized s = retry_or_exhaust o draw online s
act_on o draw online authentication_required s = record (set_state offline s) {
  log = on_authentication_required ∷ (set_state offline s).log;
}
act_on o draw online room_unavailable s = record (set_state offline s) {
  log = on_room_unavailable ∷ (set_state offline s).log;
}
act_on o draw online retry s = retry_or_exhaust o draw online s

-- The probe's promise resolves.
pub probe_answered : Options → ℕ → Bool → ℕ → ProbeResult → State → State
unfolding is_current_probe act_on
probe_answered o draw online generation result s =
    if is_current_probe online generation s
    then act_on o draw online result (record s { probing = false })
    else s

-- It rejects.
pub probe_failed : Options → ℕ → Bool → ℕ → State → State
unfolding is_current_probe retry_or_exhaust
probe_failed o draw online generation s =
    if is_current_probe online generation s
    then retry_or_exhaust o draw online (record s { probing = false })
    else s

-- The callback of the reconnect timer, if it is pending.
pub fire_reconnect : Bool → ℕ → State → State
unfolding connect
fire_reconnect online id s =
    if has id s.reconnect_pending
    then connect online
        (record s { reconnect_timer = none; reconnect_pending = without id s.reconnect_pending })
    else s

-- What the connect and join timers of a socket do.
pub time_out : String → ℕ → State → State
unfolding is_current close_socket
time_out reason socket s =
    if not (is_current socket s) || s.joined then s else close_socket socket 1008 reason s

pub fire_connect : ℕ → State → State
unfolding time_out
fire_connect id s =
    let fired = record s { connect_pending = drop_timer id s.connect_pending } in
    elim (timer_socket id s.connect_pending) [
      | none ↦ s
      | some socket ↦ time_out "connection timed out" socket fired
    ]

pub fire_join : ℕ → State → State
unfolding time_out
fire_join id s =
    let fired = record s { join_pending = drop_timer id s.join_pending } in
    elim (timer_socket id s.join_pending) [
      | none ↦ s
      | some socket ↦ time_out "join timed out" socket fired
    ]

-- What reaches a controller. A Boolean says whether the browser is online at that moment (for
-- `send_called`, whether the socket is open), and a draw is the random number of a backoff.
pub data Input : Type 0 where
  start_called online_called resync_called : Bool → Input
  stop_called offline_called joined_called : Input
  send_called : Bool → Input
  opened : ℕ → Input
  message : ℕ → Option String → Input
  closed : (draw : ℕ) → (online : Bool) → (id : ℕ) → Option ℕ → Option String → Input
  answered : (draw : ℕ) → (online : Bool) → (generation : ℕ) → ProbeResult → Input
  probe_rejected : (draw : ℕ) → (online : Bool) → (generation : ℕ) → Input
  reconnect_fired : Bool → ℕ → Input
  connect_fired join_fired : ℕ → Input

pub step : Options → State → Input → State
unfolding start stop come_online go_offline mark_joined reconnect_after_resync send socket_opened
    socket_message handle_close probe_answered probe_failed fire_reconnect fire_connect fire_join
step o s (start_called online) = start online s
step o s (online_called online) = come_online online s
step o s (resync_called online) = reconnect_after_resync online s
step o s stop_called = stop s
step o s offline_called = go_offline s
step o s joined_called = mark_joined s
step o s (send_called ready) = (send ready s).1
step o s (opened id) = socket_opened id s
step o s (message id text) = socket_message id text s
step o s (closed draw online id code reason) = handle_close o draw online id code reason s
step o s (answered draw online generation result) = probe_answered o draw online generation result s
step o s (probe_rejected draw online generation) = probe_failed o draw online generation s
step o s (reconnect_fired online id) = fire_reconnect online id s
step o s (connect_fired id) = fire_connect id s
step o s (join_fired id) = fire_join id s

pub run : Options → State → List Input → State
unfolding step
run o s [] = s
run o s (i ∷ is) = run o (step o s i) is
