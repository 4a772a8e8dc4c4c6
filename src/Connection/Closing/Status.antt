-- ===== src/Connection/Closing/Status.antt =====
-- What the state that the owner is told says about what the controller holds.
use xbin.Common.{
  ℕ, ◌+◌, ◌≡◌, Bool, Bool-cases, if-both, true, false, not, ◌&&◌, Option, none, List, [], ◌∷◌,
  arith, String, inl, inr,
}
use xbin.Connection.{
  State, ProbeResult, authorized, authentication_required, room_unavailable, retry, Effect,
  on_reconnect_exhausted, on_authentication_required, on_room_full, on_room_unavailable, new,
  set_state, clear_connect_timer, clear_join_timer, clear_attempt_timers, is_current,
  is_current_probe, close_socket, has, without, drop_timer, reconnect_after_resync,
}
use xbin.Connection.Delay.{Options}
use xbin.Connection.Closing.{
  retry_or_exhaust, probe_before_reconnect, Answer, go_quiet, ask_password, tell_full, try_again,
  let_go, respond, answer_to, handle_close, probe_answered, probe_failed, fire_reconnect, time_out,
  fire_connect, fire_join, Input, step, run, option_or, act_on, start_called, online_called,
  resync_called, stop_called, offline_called, joined_called, send_called, opened, message, closed,
  answered, probe_rejected, reconnect_fired, connect_fired, join_fired,
}
use xbin.Connection.Closing.Safety.{IsSafe, step-IsSafe}
use xbin.Connection.Closing.Truth.{
  busy, IsTrue, IsIdle, connect-IsTrue, start-IsTrue, come_online-IsTrue, idle-IsEmpty,
  set_offline-IsTrue, stop-IsTrue, go_offline-IsTrue, mark_joined-IsTrue, schedule_reconnect-IsTrue,
  reconnect_after_resync-IsTrue, send-IsTrue, socket_opened-IsTrue, socket_message-IsTrue,
}

-- The owner starts a controller that is not at work, and asks for a reconnection after a
-- resynchronization while the browser is online and no probe is out.
abbrev pub calm : State → Input → Bool
calm s (start_called online) = not (busy s)
calm s (resync_called online) = online && not s.probing
calm s _ = true

unfoldable pub calm_run : Options → State → List Input → Bool
unfolding step
calm_run o s [] = true
calm_run o s (i ∷ is) = calm s i && calm_run o (step o s i) is

told-IsTrue : (e : Effect) {s : State} → IsTrue s → IsTrue (record s { log = e ∷ s.log })
told-IsTrue e h = ground arith

retry_or_exhaust-IsTrue :
    (o : Options) (draw : ℕ) {s : State} → IsIdle s → IsTrue (retry_or_exhaust o draw true s)
unfolding retry_or_exhaust
retry_or_exhaust-IsTrue o draw h =
    if-both IsTrue (told-IsTrue on_reconnect_exhausted (set_offline-IsTrue (idle-IsEmpty h)))
      (schedule_reconnect-IsTrue _ h) _

probe_before_reconnect-IsTrue : {s : State} → IsIdle s → IsTrue (probe_before_reconnect true s)
unfolding probe_before_reconnect set_state
probe_before_reconnect-IsTrue h = ground arith

respond-offline :
    (o : Options) (draw : ℕ) {s : State} → IsIdle s → IsTrue (respond o draw false go_quiet s)
unfolding respond
respond-offline o draw h = set_offline-IsTrue (idle-IsEmpty h)

-- An answer given while the browser is offline is the first.
respond-IsTrue :
    (o : Options) (draw : ℕ) (a : Answer) {s : State} → IsIdle s → IsTrue (respond o draw true a s)
unfolding respond
respond-IsTrue o draw go_quiet h = set_offline-IsTrue (idle-IsEmpty h)
respond-IsTrue o draw ask_password h =
    told-IsTrue on_authentication_required (set_offline-IsTrue (idle-IsEmpty h))
respond-IsTrue o draw tell_full h = told-IsTrue on_room_full (set_offline-IsTrue (idle-IsEmpty h))
respond-IsTrue o draw try_again {s} h =
    let h' : IsIdle (record s { attempt = s.attempt + 1 }) = ground arith in
    if-both IsTrue (probe_before_reconnect-IsTrue h') (retry_or_exhaust-IsTrue o draw h') _

pub let_go-IsIdle :
    (id code : ℕ) (reason : String) {s : State}
    → is_current id s ≡ true
    → IsTrue s
    → IsIdle (let_go code reason (record s { live = without id s.live }))
unfolding let_go is_current clear_attempt_timers clear_connect_timer clear_join_timer
let_go-IsIdle id code reason e h = ground arith

answered-IsTrue :
    (o : Options) (draw : ℕ) (online : Bool) (code : ℕ) (reason : String) {s : State}
    → IsIdle s
    → IsTrue (respond o draw online (answer_to online code reason) s)
unfolding answer_to
answered-IsTrue o draw true code reason h = respond-IsTrue o draw _ h
answered-IsTrue o draw false code reason h = respond-offline o draw h

other_closed-IsTrue :
    (id : ℕ) {s : State} → IsTrue s → IsTrue (record s { live = without id s.live })
other_closed-IsTrue id h = ground arith

handle_close-IsTrue :
    (o : Options) (draw : ℕ) (online : Bool) (id : ℕ) (code : Option ℕ) (reason : Option String)
    {s : State}
    → IsTrue s
    → IsTrue (handle_close o draw online id code reason s)
unfolding handle_close
handle_close-IsTrue o draw online id code reason {s} h = elim (Bool-cases (is_current id s)) [
  | inl e ↦ simp e (
      answered-IsTrue o draw online (option_or code 1006) (option_or reason "")
        (let_go-IsIdle id _ _ e h))
  | inr e ↦ simp e (other_closed-IsTrue id h)
]

-- The probe that is answered is the only thing the controller waits for.
probed-IsIdle :
    (online : Bool) (generation : ℕ) {s : State}
    → is_current_probe online generation s ≡ true
    → IsTrue s
    → (online ≡ true) × IsIdle (record s { probing = false })
unfolding is_current_probe
probed-IsIdle online generation e h = (ground arith, ground arith)

retried-IsTrue :
    (o : Options) (draw : ℕ) (online : Bool) {s : State}
    → online ≡ true
    → IsIdle s
    → IsTrue (retry_or_exhaust o draw online s)
retried-IsTrue o draw true e h = retry_or_exhaust-IsTrue o draw h
retried-IsTrue o draw false e h = ground arith

answer-IsTrue :
    (o : Options) (draw : ℕ) (online : Bool) (result : ProbeResult) {s : State}
    → online ≡ true
    → IsIdle s
    → IsTrue (act_on o draw online result s)
unfolding act_on
answer-IsTrue o draw online authorized e h = retried-IsTrue o draw online e h
answer-IsTrue o draw online authentication_required e h =
    told-IsTrue on_authentication_required (set_offline-IsTrue (idle-IsEmpty h))
answer-IsTrue o draw online room_unavailable e h =
    told-IsTrue on_room_unavailable (set_offline-IsTrue (idle-IsEmpty h))
answer-IsTrue o draw online retry e h = retried-IsTrue o draw online e h

probe_answered-IsTrue :
    (o : Options) (draw : ℕ) (online : Bool) (generation : ℕ) (result : ProbeResult) {s : State}
    → IsTrue s
    → IsTrue (probe_answered o draw online generation result s)
unfolding probe_answered
probe_answered-IsTrue o draw online generation result {s} h =
    elim (Bool-cases (is_current_probe online generation s)) [
      | inl e ↦
          let (on, h') = probed-IsIdle online generation e h in
          simp e (answer-IsTrue o draw online result on h')
      | inr e ↦ simp e h
    ]

probe_failed-IsTrue :
    (o : Options) (draw : ℕ) (online : Bool) (generation : ℕ) {s : State}
    → IsTrue s
    → IsTrue (probe_failed o draw online generation s)
unfolding probe_failed
probe_failed-IsTrue o draw online generation {s} h =
    elim (Bool-cases (is_current_probe online generation s)) [
      | inl e ↦
          let (on, h') = probed-IsIdle online generation e h in
          simp e (retried-IsTrue o draw online on h')
      | inr e ↦ simp e h
    ]

fired-IsIdle :
    (id : ℕ) {s : State}
    → has id s.reconnect_pending ≡ true
    → IsSafe s
    → IsTrue s
    → IsIdle
        (record s { reconnect_timer = none; reconnect_pending = without id s.reconnect_pending })
fired-IsIdle id e h h' = ground arith

fire_reconnect-IsTrue :
    (online : Bool) (id : ℕ) {s : State} → IsSafe s → IsTrue s → IsTrue (fire_reconnect online id s)
unfolding fire_reconnect
fire_reconnect-IsTrue online id {s} h h' = elim (Bool-cases (has id s.reconnect_pending)) [
  | inl e ↦ simp e (connect-IsTrue online (fired-IsIdle id e h h'))
  | inr e ↦ simp e h'
]

time_out-IsTrue :
    (reason : String) (socket : ℕ) {s : State} → IsTrue s → IsTrue (time_out reason socket s)
unfolding time_out is_current close_socket
time_out-IsTrue reason socket h = ground arith

fire_connect-IsTrue : (id : ℕ) {s : State} → IsTrue s → IsTrue (fire_connect id s)
unfolding fire_connect
fire_connect-IsTrue id {s} h =
    let h' : IsTrue (record s { connect_pending = drop_timer id s.connect_pending }) =
      ground arith in
    ground (arith, time_out-IsTrue "connection timed out" _ h')

fire_join-IsTrue : (id : ℕ) {s : State} → IsTrue s → IsTrue (fire_join id s)
unfolding fire_join
fire_join-IsTrue id {s} h =
    let h' : IsTrue (record s { join_pending = drop_timer id s.join_pending }) = ground arith in
    ground (arith, time_out-IsTrue "join timed out" _ h')

resync-IsTrue :
    (online : Bool) {s : State}
    → (online && not s.probing) ≡ true
    → IsTrue s
    → IsTrue (reconnect_after_resync online s)
resync-IsTrue true e h = reconnect_after_resync-IsTrue (ground arith) h
resync-IsTrue false e h = ground arith

step-IsTrue :
    (o : Options) (i : Input) {s : State}
    → calm s i ≡ true
    → IsSafe s
    → IsTrue s
    → IsTrue (step o s i)
unfolding step
step-IsTrue o (start_called online) e safe h = start-IsTrue online (ground arith) h
step-IsTrue o (online_called online) e safe h = come_online-IsTrue online h
step-IsTrue o (resync_called online) e safe h = resync-IsTrue online e h
step-IsTrue o stop_called {s} e safe h = stop-IsTrue s
step-IsTrue o offline_called e safe h = go_offline-IsTrue h
step-IsTrue o joined_called e safe h = mark_joined-IsTrue h
step-IsTrue o (send_called ready) e safe h = send-IsTrue ready h
step-IsTrue o (opened id) e safe h = socket_opened-IsTrue id h
step-IsTrue o (message id text) e safe h = socket_message-IsTrue id text h
step-IsTrue o (closed draw online id code reason) e safe h =
    handle_close-IsTrue o draw online id code reason h
step-IsTrue o (answered draw online generation r) e safe h =
    probe_answered-IsTrue o draw online generation r h
step-IsTrue o (probe_rejected draw online generation) e safe h =
    probe_failed-IsTrue o draw online generation h
step-IsTrue o (reconnect_fired online id) e safe h = fire_reconnect-IsTrue online id safe h
step-IsTrue o (connect_fired id) e safe h = fire_connect-IsTrue id h
step-IsTrue o (join_fired id) e safe h = fire_join-IsTrue id h

pub new-IsTrue : IsTrue new
new-IsTrue = ground arith

-- If the owner calls `start` only on a controller that is not at work, and `reconnectAfterResync` only
-- while the browser is online and no probe is out, then the state it is told is true, whatever the socket,
-- the timers, the probe and the network do: offline exactly if nothing is held, else exactly one of a
-- socket, a reconnect timer and a probe is, and connected exactly if the socket has joined.
pub state_told :
    (o : Options) (is : List Input) {s : State}
    → calm_run o s is ≡ true
    → IsSafe s
    → IsTrue s
    → IsTrue (run o s is)
unfolding run calm_run
state_told o [] e safe h = h
state_told o (i ∷ is) {s} e safe h =
    state_told o is (ground arith) (step-IsSafe o i safe) (step-IsTrue o i (ground arith) safe h)
