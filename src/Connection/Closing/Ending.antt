-- ===== src/Connection/Closing/Ending.antt =====
-- What ends the attempts to reconnect: a stop, a close that is final, and the limit on attempts.
use xbin.Common.{
  ℕ, ◌+◌, ◌≡◌, Bool, true, false, not, ◌&&◌, ◌||◌, Option, none, List, [], ◌∷◌, arith, is_some,
  ◌==◌, str_eq, if◌then◌else◌, ltb, String, ◌∙◌,
}
use xbin.Connection.{
  State, reconnecting, offline, set_state, is_current, is_current_probe, close_socket, connect,
  stop, come_online, without, drop_socket, clear_attempt_timers, clear_connect_timer,
  clear_join_timer, clear_reconnect_timer, cancel_probe, go_offline, mark_joined,
  schedule_reconnect, reconnect_after_resync, send, socket_opened, socket_message,
}
use xbin.Connection.Delay.{Options}
use xbin.Connection.Closing.{
  retry_or_exhaust, probe_before_reconnect, try_again, let_go, respond, answer_to, handle_close,
  probe_answered, probe_failed, fire_reconnect, time_out, fire_connect, fire_join, Input, step, run,
  option_or, start_called, online_called, resync_called, stop_called, offline_called, joined_called,
  send_called, opened, message, closed, answered, probe_rejected, reconnect_fired, connect_fired,
  join_fired,
}
use xbin.Connection.Closing.Safety.{IsSafe, step-IsSafe}
use xbin.Connection.Closing.Truth.{IsTrue, IsIdle}
use xbin.Connection.Closing.Status.{let_go-IsIdle}
use xbin.Connection.Text.{mentions_auth, mentions_full, mentions_expired}

abbrev pub starts : List Input → Bool
starts [] = false
starts (start_called online ∷ is) = true
starts (i ∷ is) = starts is

abbrev pub is_start : Input → Bool
is_start (start_called online) = true
is_start _ = false

-- Nothing is said to the owner, the network or the platform, no socket or timer is made since, and the controller
-- remains stopped and holds none.
pub record Silent (s t : State) : Type 0 where
  pub silent_log : t.log ≡ s.log
  pub silent_stopped : t.stopped ≡ true
  pub same_sockets : t.next_socket ≡ s.next_socket
  pub same_timers : t.next_timer ≡ s.next_timer
  pub no_socket : t.socket ≡ none
  pub no_reconnect : t.reconnect_timer ≡ none
  pub no_connect : t.connect_timer ≡ none
  pub no_join : t.join_timer ≡ none
  pub no_probe : t.probing ≡ false

Silent-twice : {s t u : State} → Silent s t → Silent t u → Silent s u
Silent-twice h k = record {
  silent_log = k.silent_log ∙ h.silent_log;
  silent_stopped = k.silent_stopped;
  same_sockets = k.same_sockets ∙ h.same_sockets;
  same_timers = k.same_timers ∙ h.same_timers;
  no_socket = k.no_socket;
  no_reconnect = k.no_reconnect;
  no_connect = k.no_connect;
  no_join = k.no_join;
  no_probe = k.no_probe;
}

stop-Silent : {s : State} → s.stopped ≡ true → IsSafe s → Silent s (stop s)
unfolding stop set_state drop_socket close_socket clear_attempt_timers clear_connect_timer
    clear_join_timer clear_reconnect_timer cancel_probe
stop-Silent on h = ground arith

step-Silent :
    (o : Options) (i : Input) {s : State}
    → is_start i ≡ false
    → s.stopped ≡ true
    → IsSafe s
    → Silent s (step o s i)
unfolding step stop come_online go_offline mark_joined reconnect_after_resync send socket_opened
    socket_message handle_close probe_answered probe_failed fire_reconnect fire_connect fire_join
    time_out is_current is_current_probe connect
step-Silent o (start_called online) e on h = ground arith
step-Silent o (online_called online) e on h = ground arith
step-Silent o (resync_called online) e on h = ground arith
step-Silent o stop_called e on h = stop-Silent on h
step-Silent o offline_called e on h = ground arith
step-Silent o joined_called e on h = ground arith
step-Silent o (send_called ready) e on h = ground arith
step-Silent o (opened id) e on h = ground arith
step-Silent o (message id text) e on h = ground arith
step-Silent o (closed draw online id code reason) e on h = ground arith
step-Silent o (answered draw online generation r) e on h = ground arith
step-Silent o (probe_rejected draw online generation) e on h = ground arith
step-Silent o (reconnect_fired online id) e on h = ground arith
step-Silent o (connect_fired id) e on h = ground arith
step-Silent o (join_fired id) e on h = ground arith

-- A controller that is stopped, in a safe state, stays so until it is started again: until then, whatever sockets,
-- timers and probes do and the owner calls, it calls nobody, makes no socket and no timer, and holds no socket, no
-- timer and no probe.
pub stopped-Silent :
    (o : Options) (is : List Input) {s : State}
    → starts is ≡ false
    → s.stopped ≡ true
    → IsSafe s
    → Silent s (run o s is)
unfolding run
stopped-Silent o [] e on h = ground arith
stopped-Silent o (i ∷ is) {s} e on h =
    let first = step-Silent o i (ground arith) on h in
    Silent-twice first (stopped-Silent o is (ground arith) first.silent_stopped (step-IsSafe o i h))

-- A close after which no reconnection is tried: the browser is offline, the server asks for a password,
-- the room is full or over, or the close is this controller's own.
abbrev pub is_final : Bool → ℕ → String → Bool
is_final online code reason =
    not online
    || (code == 1008 && mentions_auth reason)
    || (code == 1013 && (mentions_full reason || mentions_expired reason))
    || (code == 1000 && str_eq reason "leaving live room")

abbrev tries : Options → State → Bool
tries o s = not o.has_probe && ltb (s.attempt + 1) o.max_reconnect_attempts

-- What a close leaves behind.
pub record Closed (o : Options) (final : Bool) (s t : State) : Type 0 where
  pub closed_socket : t.socket ≡ none
  pub closed_joined : t.joined ≡ false
  pub closed_attempt : t.attempt ≡ (if final then s.attempt else s.attempt + 1)
  pub closed_probing : t.probing ≡ (not final && o.has_probe)
  pub closed_timer : is_some t.reconnect_timer ≡ (not final && tries o s)
  pub closed_state :
      t.state ≡ (if not final && (o.has_probe || tries o s) then reconnecting else offline)

try_again-Closed :
    (o : Options) (draw : ℕ) {s : State}
    → IsIdle s
    → Closed o false s (respond o draw true try_again s)
unfolding respond probe_before_reconnect retry_or_exhaust schedule_reconnect set_state
try_again-Closed o draw h = ground arith

respond-Closed :
    (o : Options) (draw : ℕ) (online : Bool) (code : ℕ) (reason : String) {s : State}
    → IsIdle s
    → Closed o
        (is_final online code reason)
        s
        (respond o draw online (answer_to online code reason) s)
unfolding respond set_state answer_to
respond-Closed o draw online code reason h = ground (arith, try_again-Closed o draw h)

let_go_keeps_attempt :
    (code : ℕ) (reason : String) (s : State) → (let_go code reason s).attempt ≡ s.attempt
unfolding let_go clear_attempt_timers clear_connect_timer clear_join_timer
let_go_keeps_attempt code reason s = ground arith

from_attempt :
    (o : Options) {final : Bool} {s s' t : State}
    → s'.attempt ≡ s.attempt
    → Closed o final s' t
    → Closed o final s t
from_attempt o e h = ground arith

-- When the socket that a controller holds closes, in a state in which what is told is true (`IsTrue`, so that neither
-- a reconnect timer nor a probe is held beside the socket), the controller lets go of it. A final close leaves it
-- offline, with no probe and no reconnect timer, and counts no attempt. Any other counts one. A controller
-- that has a probe to ask is then reconnecting with the probe out, however many attempts were made; one that has
-- none is reconnecting with the reconnect timer set if fewer attempts than the limit were made, else offline.
pub close_settled :
    (o : Options) (draw : ℕ) (online : Bool) (id : ℕ) (code : Option ℕ) (reason : Option String)
    {s : State}
    → is_current id s ≡ true
    → IsTrue s
    → Closed o
        (is_final online (option_or code 1006) (option_or reason ""))
        s
        (handle_close o draw online id code reason s)
unfolding handle_close
close_settled o draw online id code reason {s} e h =
    let status = option_or code 1006 in
    let why = option_or reason "" in
    let idle = let_go-IsIdle id status why e h in
    let same = let_go_keeps_attempt status why (record s { live = without id s.live }) in
    simp e (from_attempt o same (respond-Closed o draw online status why idle))
