-- ===== src/Connection/Closing/Truth.antt =====
-- When the state that the owner of a connection is told is true, and that its calls and the events of an
-- open socket keep it so.
use xbin.Common.{
  ℕ, ◌≡◌, ◌∙◌, ap, Bool, Bool-cases, if-both, true, false, not, ◌||◌, Option, none, arith, is_some,
  String, inl, inr,
}
use xbin.Connection.{
  State, connected, offline, same_state, set_state, clear_reconnect_timer, clear_connect_timer,
  clear_join_timer, clear_attempt_timers, cancel_probe, is_current, close_socket, drop_socket,
  open_socket, connect, start, stop, come_online, go_offline, mark_joined, schedule_reconnect,
  reconnect_after_resync, send, socket_opened, socket_message,
}

abbrev pub busy : State → Bool
busy s = is_some s.socket || is_some s.reconnect_timer || s.probing

-- It is offline exactly if it has no socket, no reconnect timer and no probe, of which it has one at
-- most, and connected exactly if it has joined.
pub record IsTrue (s : State) : Type 0 where
  pub at_work : busy s ≡ not (same_state s.state offline)
  pub joined_connected : s.joined ≡ same_state s.state connected
  pub joined_socket : s.joined ≡ true → is_some s.socket ≡ true
  pub one_timer : is_some s.socket ≡ true → s.reconnect_timer ≡ none
  pub socket_probe : is_some s.socket ≡ true → s.probing ≡ false
  pub one_probe : is_some s.reconnect_timer ≡ true → s.probing ≡ false

-- A controller that runs and waits for nothing yet.
pub record IsIdle (s : State) : Type 0 where
  pub idle_running : s.stopped ≡ false
  pub idle_work : busy s ≡ false
  pub idle_joined : s.joined ≡ false

pub connect-IsTrue : (online : Bool) {s : State} → IsIdle s → IsTrue (connect online s)
unfolding connect open_socket set_state clear_reconnect_timer
connect-IsTrue online h = ground arith

pub start-IsTrue : (online : Bool) {s : State} → busy s ≡ false → IsTrue s → IsTrue (start online s)
unfolding start
start-IsTrue online {s} e h =
    let h' : IsIdle (record s { stopped = false }) = ground arith in connect-IsTrue online h'

pub come_online-IsTrue : (online : Bool) {s : State} → IsTrue s → IsTrue (come_online online s)
unfolding come_online
come_online-IsTrue online {s} h = elim (Bool-cases (busy s)) [
  | inl e ↦ ground arith
  | inr e ↦ elim (Bool-cases s.stopped) [
    | inl e' ↦ ground arith
    | inr e' ↦
        let h' : IsIdle (record s { attempt = 0 }) = ground arith in
        if-both IsTrue h (connect-IsTrue online h') _
  ]
]

pub record IsEmpty (s : State) : Type 0 where
  pub empty_work : busy s ≡ false
  pub empty_joined : s.joined ≡ false

pub idle-IsEmpty : {s : State} → IsIdle s → IsEmpty s
idle-IsEmpty h = ground arith

pub set_offline-IsTrue : {s : State} → IsEmpty s → IsTrue (set_state offline s)
unfolding set_state
set_offline-IsTrue h = ground arith

cleared-IsEmpty :
    (reason : String) (s : State)
    → IsEmpty (drop_socket reason (clear_reconnect_timer (cancel_probe s)))
unfolding drop_socket close_socket clear_reconnect_timer cancel_probe clear_attempt_timers
    clear_connect_timer clear_join_timer
cleared-IsEmpty reason s = ground arith

cleared-IsTrue :
    (reason : String) (s : State)
    → IsTrue (set_state offline (drop_socket reason (clear_reconnect_timer (cancel_probe s))))
cleared-IsTrue reason s = set_offline-IsTrue (cleared-IsEmpty reason s)

pub stop-IsTrue : (s : State) → IsTrue (stop s)
unfolding stop
stop-IsTrue s = cleared-IsTrue "leaving live room" (record s { stopped = true })

pub go_offline-IsTrue : {s : State} → IsTrue s → IsTrue (go_offline s)
unfolding go_offline
go_offline-IsTrue {s} h = if-both IsTrue h (cleared-IsTrue "browser offline" s) s.stopped

pub mark_joined-IsTrue : {s : State} → IsTrue s → IsTrue (mark_joined s)
unfolding mark_joined set_state clear_join_timer
mark_joined-IsTrue h = ground arith

pub schedule_reconnect-IsTrue :
    (delay : ℕ) {s : State} → IsIdle s → IsTrue (schedule_reconnect true delay s)
unfolding schedule_reconnect set_state
schedule_reconnect-IsTrue delay h = ground arith

scheduled_already-IsTrue :
    (delay : ℕ) {s : State}
    → is_some s.reconnect_timer ≡ true
    → IsTrue s
    → IsTrue (schedule_reconnect true delay s)
unfolding schedule_reconnect
scheduled_already-IsTrue delay e h = ground arith

dropped-IsTrue :
    (reason : String) {s : State}
    → is_some s.reconnect_timer ≡ true
    → IsTrue s
    → IsTrue (drop_socket reason s)
unfolding drop_socket close_socket clear_attempt_timers clear_connect_timer clear_join_timer
dropped-IsTrue reason e h = ground arith

dropped-IsIdle :
    (reason : String) (s : State)
    → s.stopped ≡ false
    → s.reconnect_timer ≡ none
    → s.probing ≡ false
    → IsIdle (drop_socket reason s)
unfolding drop_socket close_socket clear_attempt_timers clear_connect_timer clear_join_timer
dropped-IsIdle reason s e e' e'' = ground arith

dropped_keeps_timer :
    (reason : String) (s : State) → (drop_socket reason s).reconnect_timer ≡ s.reconnect_timer
unfolding drop_socket close_socket clear_attempt_timers clear_connect_timer clear_join_timer
dropped_keeps_timer reason s = ground arith

rescheduled-IsTrue :
    {s : State}
    → s.stopped ≡ false
    → s.probing ≡ false
    → IsTrue s
    → IsTrue (schedule_reconnect true 0 (drop_socket "resynchronizing" s))
rescheduled-IsTrue {s} off e h = elim (Bool-cases (is_some s.reconnect_timer)) [
  | inl e' ↦
      scheduled_already-IsTrue 0 (ap is_some (dropped_keeps_timer "resynchronizing" s) ∙ e')
        (dropped-IsTrue "resynchronizing" e' h)
  | inr e' ↦ schedule_reconnect-IsTrue 0 (dropped-IsIdle "resynchronizing" s off (ground arith) e)
]

pub reconnect_after_resync-IsTrue :
    {s : State} → s.probing ≡ false → IsTrue s → IsTrue (reconnect_after_resync true s)
unfolding reconnect_after_resync
reconnect_after_resync-IsTrue {s} e h = elim (Bool-cases s.stopped) [
  | inl on ↦ ground arith
  | inr off ↦ if-both IsTrue h (rescheduled-IsTrue off e h) s.stopped
]

pub send-IsTrue : (ready : Bool) {s : State} → IsTrue s → IsTrue (send ready s).1
unfolding send
send-IsTrue ready h = ground arith

pub socket_opened-IsTrue : (id : ℕ) {s : State} → IsTrue s → IsTrue (socket_opened id s)
unfolding socket_opened clear_connect_timer is_current
socket_opened-IsTrue id h = ground arith

pub socket_message-IsTrue :
    (id : ℕ) (text : Option String) {s : State} → IsTrue s → IsTrue (socket_message id text s)
unfolding socket_message is_current
socket_message-IsTrue id text h = ground arith
