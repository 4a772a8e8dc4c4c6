-- ===== src/Connection/Closing/Safety.antt =====
-- The invariant of the connection controller, under any order of calls, socket events and timers.
use xbin.Common.{
  ℕ, ◌+◌, ◌≡◌, Bool, Bool-cases, if-both, true, false, Option, none, some, List, [], ◌∷◌, arith,
  is_some, String, ◌⊎◌, inl, inr,
}
use xbin.Connection.{
  State, ProbeResult, Effect, on_authentication_required, on_room_unavailable, authorized,
  authentication_required, room_unavailable, retry, offline, new, set_state, clear_reconnect_timer,
  clear_connect_timer, clear_join_timer, clear_attempt_timers, cancel_probe, is_current,
  close_socket, drop_socket, open_socket, connect, start, stop, come_online, go_offline,
  mark_joined, has, without, drop_timer, schedule_reconnect, reconnect_after_resync, send,
  socket_opened, socket_message,
}
use xbin.Connection.Delay.{Options}
use xbin.Connection.Closing.{
  retry_or_exhaust, probe_before_reconnect, Answer, go_quiet, ask_password, tell_full, try_again,
  let_go, respond, handle_close, act_on, probe_answered, probe_failed, fire_reconnect, time_out,
  fire_connect, fire_join, Input, step, run, start_called, online_called, resync_called,
  stop_called, offline_called, joined_called, send_called, opened, message, closed, answered,
  probe_rejected, reconnect_fired, connect_fired, join_fired,
}

abbrev pub held : Option ℕ → List ℕ
held none = []
held (some id) = id ∷ []

-- The pending timers are none, or the one that is held.
abbrev pub IsHeld : Option ℕ → List (ℕ × ℕ) → Type 0
IsHeld timer [] = Unit
IsHeld timer ((id, socket) ∷ []) = timer ≡ some id
IsHeld timer (x ∷ y ∷ pending) = ⊥

-- A stopped controller holds nothing and is offline. Without a socket there is no connect or join timer. Only a
-- held socket is joined, at most that one is neither closed nor told to close, the pending reconnect timers are
-- the one that is held, and a pending connect timer is the one that is held.
pub record IsSafe (s : State) : Type 0 where
  pub stopped_socket : s.stopped ≡ true → s.socket ≡ none
  pub stopped_timer : s.stopped ≡ true → s.reconnect_timer ≡ none
  pub stopped_probe : s.stopped ≡ true → s.probing ≡ false
  pub stopped_state : s.stopped ≡ true → s.state ≡ offline
  pub unconnected_connect : s.socket ≡ none → s.connect_timer ≡ none
  pub unconnected_join : s.socket ≡ none → s.join_timer ≡ none
  pub connect_held : IsHeld s.connect_timer s.connect_pending
  pub joined_socket : s.joined ≡ true → is_some s.socket ≡ true
  pub reconnect_held : s.reconnect_pending ≡ held s.reconnect_timer
  pub one_live : (s.live ≡ []) ⊎ (s.live ≡ held s.socket)

pub new-IsSafe : IsSafe new
new-IsSafe = ground arith

connect-IsSafe : (online : Bool) {s : State} → IsSafe s → IsSafe (connect online s)
unfolding connect open_socket set_state clear_reconnect_timer
connect-IsSafe online h = ground arith

pub start-IsSafe : (online : Bool) {s : State} → IsSafe s → IsSafe (start online s)
unfolding start
start-IsSafe online {s} h =
    let h' : IsSafe (record s { stopped = false }) = ground arith in connect-IsSafe online h'

-- What a controller that has let go of everything holds.
record IsQuiet (s : State) : Type 0 where
  quiet_socket : s.socket ≡ none
  quiet_timer : s.reconnect_timer ≡ none
  quiet_probe : s.probing ≡ false
  quiet_joined : s.joined ≡ false
  quiet_pending : s.reconnect_pending ≡ []
  quiet_live : s.live ≡ []
  quiet_connect : s.connect_timer ≡ none
  quiet_join : s.join_timer ≡ none
  quiet_connect_pending : s.connect_pending ≡ []

set_offline-IsQuiet : {s : State} → IsQuiet s → IsSafe (set_state offline s)
unfolding set_state
set_offline-IsQuiet h = ground arith

cleared-IsQuiet :
    (reason : String) (s : State)
    → s.reconnect_timer ≡ none
    → s.reconnect_pending ≡ []
    → s.probing ≡ false
    → (s.live ≡ []) ⊎ (s.live ≡ held s.socket)
    → IsHeld s.connect_timer s.connect_pending
    → IsQuiet (drop_socket reason s)
unfolding drop_socket close_socket clear_attempt_timers clear_connect_timer clear_join_timer
cleared-IsQuiet reason s e e' e'' h k = ground arith

-- `stop` and `offline` do this, the former on a controller that it has marked as stopped.
clear-IsSafe :
    (reason : String) (s : State)
    → s.reconnect_pending ≡ held s.reconnect_timer
    → (s.live ≡ []) ⊎ (s.live ≡ held s.socket)
    → IsHeld s.connect_timer s.connect_pending
    → IsSafe (set_state offline (drop_socket reason (clear_reconnect_timer (cancel_probe s))))
unfolding clear_reconnect_timer cancel_probe
clear-IsSafe reason s e h k = set_offline-IsQuiet (
    cleared-IsQuiet reason _ (ground arith) (ground arith) (ground arith) (ground arith)
      (ground arith))

stop-IsSafe : {s : State} → IsSafe s → IsSafe (stop s)
unfolding stop
stop-IsSafe {s} h =
    clear-IsSafe "leaving live room" (record s { stopped = true }) h.reconnect_held h.one_live
      h.connect_held

come_online-IsSafe : (online : Bool) {s : State} → IsSafe s → IsSafe (come_online online s)
unfolding come_online
come_online-IsSafe online {s} h =
    let h' : IsSafe (record s { attempt = 0 }) = ground arith in
    ground (arith, connect-IsSafe online h')

go_offline-IsSafe : {s : State} → IsSafe s → IsSafe (go_offline s)
unfolding go_offline
go_offline-IsSafe {s} h =
    if-both IsSafe h (clear-IsSafe "browser offline" s h.reconnect_held h.one_live h.connect_held)
      s.stopped

mark_joined-IsSafe : {s : State} → IsSafe s → IsSafe (mark_joined s)
unfolding mark_joined set_state clear_join_timer
mark_joined-IsSafe h = ground arith

schedule_reconnect-IsSafe :
    (online : Bool) (delay : ℕ) {s : State} → IsSafe s → IsSafe (schedule_reconnect online delay s)
unfolding schedule_reconnect set_state
schedule_reconnect-IsSafe online delay h = ground arith

drop_socket-IsSafe : (reason : String) {s : State} → IsSafe s → IsSafe (drop_socket reason s)
unfolding drop_socket close_socket clear_attempt_timers clear_connect_timer clear_join_timer
drop_socket-IsSafe reason h = ground arith

reconnect_after_resync-IsSafe :
    (online : Bool) {s : State} → IsSafe s → IsSafe (reconnect_after_resync online s)
unfolding reconnect_after_resync
reconnect_after_resync-IsSafe online h =
    ground (arith, schedule_reconnect-IsSafe online 0 (drop_socket-IsSafe "resynchronizing" h))

send-IsSafe : (ready : Bool) {s : State} → IsSafe s → IsSafe (send ready s).1
unfolding send
send-IsSafe ready h = ground arith

socket_opened-IsSafe : (id : ℕ) {s : State} → IsSafe s → IsSafe (socket_opened id s)
unfolding socket_opened clear_connect_timer is_current
socket_opened-IsSafe id h = ground arith

socket_message-IsSafe :
    (id : ℕ) (text : Option String) {s : State} → IsSafe s → IsSafe (socket_message id text s)
unfolding socket_message is_current
socket_message-IsSafe id text h = ground arith

set_offline-IsSafe : {s : State} → IsSafe s → IsSafe (set_state offline s)
unfolding set_state
set_offline-IsSafe h = ground arith

retry_or_exhaust-IsSafe :
    (o : Options) (draw : ℕ) (online : Bool) {s : State}
    → IsSafe s
    → IsSafe (retry_or_exhaust o draw online s)
unfolding retry_or_exhaust
retry_or_exhaust-IsSafe o draw online h =
    ground (arith, set_offline-IsSafe h, schedule_reconnect-IsSafe online _ h)

probe_before_reconnect-IsSafe :
    (online : Bool) {s : State} → IsSafe s → IsSafe (probe_before_reconnect online s)
unfolding probe_before_reconnect set_state
probe_before_reconnect-IsSafe online h = ground arith

-- The socket that closed is gone from the live ones, and the controller holds it no more.
let_go-IsSafe :
    (id code : ℕ) (reason : String) {s : State}
    → is_current id s ≡ true
    → IsSafe s
    → IsSafe (let_go code reason (record s { live = without id s.live }))
unfolding let_go is_current clear_attempt_timers clear_connect_timer clear_join_timer
let_go-IsSafe id code reason e h = ground arith

respond-IsSafe :
    (o : Options) (draw : ℕ) (online : Bool) (a : Answer) {s : State}
    → IsSafe s
    → IsSafe (respond o draw online a s)
unfolding respond
respond-IsSafe o draw online go_quiet h = set_offline-IsSafe h
respond-IsSafe o draw online ask_password h = ground (arith, set_offline-IsSafe h)
respond-IsSafe o draw online tell_full h = ground (arith, set_offline-IsSafe h)
respond-IsSafe o draw online try_again {s} h =
    let h' : IsSafe (record s { attempt = s.attempt + 1 }) = ground arith in
    ground
      (arith, probe_before_reconnect-IsSafe online h', retry_or_exhaust-IsSafe o draw online h')

other_closed-IsSafe :
    (id : ℕ) {s : State} → IsSafe s → IsSafe (record s { live = without id s.live })
other_closed-IsSafe id h = ground arith

handle_close-IsSafe :
    (o : Options) (draw : ℕ) (online : Bool) (id : ℕ) (code : Option ℕ) (reason : Option String)
    {s : State}
    → IsSafe s
    → IsSafe (handle_close o draw online id code reason s)
unfolding handle_close
handle_close-IsSafe o draw online id code reason {s} h = elim (Bool-cases (is_current id s)) [
  | inl e ↦ simp e (respond-IsSafe o draw online _ (let_go-IsSafe id _ _ e h))
  | inr e ↦ simp e (other_closed-IsSafe id h)
]

told-IsSafe : (e : Effect) {s : State} → IsSafe s → IsSafe (record s { log = e ∷ s.log })
told-IsSafe e h = ground arith

probed-IsSafe : {s : State} → IsSafe s → IsSafe (record s { probing = false })
probed-IsSafe h = ground arith

act_on-IsSafe :
    (o : Options) (draw : ℕ) (online : Bool) (result : ProbeResult) {s : State}
    → IsSafe s
    → IsSafe (act_on o draw online result s)
unfolding act_on
act_on-IsSafe o draw online authorized h = retry_or_exhaust-IsSafe o draw online h
act_on-IsSafe o draw online authentication_required h =
    told-IsSafe on_authentication_required (set_offline-IsSafe h)
act_on-IsSafe o draw online room_unavailable h =
    told-IsSafe on_room_unavailable (set_offline-IsSafe h)
act_on-IsSafe o draw online retry h = retry_or_exhaust-IsSafe o draw online h

probe_answered-IsSafe :
    (o : Options) (draw : ℕ) (online : Bool) (generation : ℕ) (result : ProbeResult) {s : State}
    → IsSafe s
    → IsSafe (probe_answered o draw online generation result s)
unfolding probe_answered
probe_answered-IsSafe o draw online generation result h =
    if-both IsSafe (act_on-IsSafe o draw online result (probed-IsSafe h)) h _

probe_failed-IsSafe :
    (o : Options) (draw : ℕ) (online : Bool) (generation : ℕ) {s : State}
    → IsSafe s
    → IsSafe (probe_failed o draw online generation s)
unfolding probe_failed
probe_failed-IsSafe o draw online generation h =
    ground (arith, retry_or_exhaust-IsSafe o draw online (probed-IsSafe h))

fired-IsSafe :
    (id : ℕ) {s : State}
    → has id s.reconnect_pending ≡ true
    → IsSafe s
    → IsSafe
        (record s { reconnect_timer = none; reconnect_pending = without id s.reconnect_pending })
fired-IsSafe id e h = ground arith

fire_reconnect-IsSafe :
    (online : Bool) (id : ℕ) {s : State} → IsSafe s → IsSafe (fire_reconnect online id s)
unfolding fire_reconnect
fire_reconnect-IsSafe online id {s} h = elim (Bool-cases (has id s.reconnect_pending)) [
  | inl e ↦ simp e (connect-IsSafe online (fired-IsSafe id e h))
  | inr e ↦ simp e h
]

time_out-IsSafe :
    (reason : String) (socket : ℕ) {s : State} → IsSafe s → IsSafe (time_out reason socket s)
unfolding time_out is_current close_socket
time_out-IsSafe reason socket h = ground arith

fire_connect-IsSafe : (id : ℕ) {s : State} → IsSafe s → IsSafe (fire_connect id s)
unfolding fire_connect
fire_connect-IsSafe id {s} h =
    let h' : IsSafe (record s { connect_pending = drop_timer id s.connect_pending }) =
      ground arith in
    ground (arith, time_out-IsSafe "connection timed out" _ h')

fire_join-IsSafe : (id : ℕ) {s : State} → IsSafe s → IsSafe (fire_join id s)
unfolding fire_join
fire_join-IsSafe id {s} h =
    let h' : IsSafe (record s { join_pending = drop_timer id s.join_pending }) = ground arith in
    ground (arith, time_out-IsSafe "join timed out" _ h')

pub step-IsSafe : (o : Options) (i : Input) {s : State} → IsSafe s → IsSafe (step o s i)
unfolding step
step-IsSafe o (start_called online) h = start-IsSafe online h
step-IsSafe o (online_called online) h = come_online-IsSafe online h
step-IsSafe o (resync_called online) h = reconnect_after_resync-IsSafe online h
step-IsSafe o stop_called h = stop-IsSafe h
step-IsSafe o offline_called h = go_offline-IsSafe h
step-IsSafe o joined_called h = mark_joined-IsSafe h
step-IsSafe o (send_called ready) h = send-IsSafe ready h
step-IsSafe o (opened id) h = socket_opened-IsSafe id h
step-IsSafe o (message id text) h = socket_message-IsSafe id text h
step-IsSafe o (closed draw online id code reason) h =
    handle_close-IsSafe o draw online id code reason h
step-IsSafe o (answered draw online generation r) h =
    probe_answered-IsSafe o draw online generation r h
step-IsSafe o (probe_rejected draw online generation) h =
    probe_failed-IsSafe o draw online generation h
step-IsSafe o (reconnect_fired online id) h = fire_reconnect-IsSafe online id h
step-IsSafe o (connect_fired id) h = fire_connect-IsSafe id h
step-IsSafe o (join_fired id) h = fire_join-IsSafe id h

-- From a safe state (a new controller is one), any sequence of calls, socket events, probe results and timers
-- leads to a safe state: a stopped controller is offline and holds no socket, no reconnect timer and no probe; one
-- without a socket, as a stopped one is, holds no connect timer and no join timer; only a held socket is
-- joined, at most that one is neither closed nor told to close, the reconnect timer that is held is the one
-- pending, and no connect timer is pending but the one held.
pub still-IsSafe : (o : Options) (is : List Input) {s : State} → IsSafe s → IsSafe (run o s is)
unfolding run
still-IsSafe o [] h = h
still-IsSafe o (i ∷ is) h = still-IsSafe o is (step-IsSafe o i h)
