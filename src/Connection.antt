-- ===== src/Connection.antt =====
-- web/src/live-connection.ts: the controller of a live room's one socket, with reconnection.
--
-- The state is the class's fields, and beside them what the platform keeps: the pending timers with the
-- socket that their callbacks hold, the sockets that are neither closed nor told to close (`live`), and
-- the calls of the owner's callbacks so far (`log`, newest first). Sockets and timers are numbered.
-- Whether the browser is online is an argument of each step, since it does not change during one.
pub mod Text
pub mod Delay
pub mod Closing
use xbin.Common.{
  ℕ, zero, suc, ◌+◌, ◌-◌, ◌*◌, ◌^◌, min, String, Bool, true, false, not, ◌&&◌, ◌||◌, Option, none,
  some, List, [], ◌∷◌, leb, ◌==◌, if◌then◌else◌, str_eq, is_some,
}

-- LiveConnectionState
pub data ConnectionState : Type 0 where
  connecting connected reconnecting offline recovery : ConnectionState

-- LiveReconnectProbeResult
pub data ProbeResult : Type 0 where
  authorized authentication_required room_unavailable retry : ProbeResult

-- What the controller does to the world: calls on a socket, the probe, and the owner's callbacks.
pub data Effect : Type 0 where
  socket_created join_sent message_sent : ℕ → Effect
  close_called : ℕ → ℕ → String → Effect
  message_received : String → Effect
  state_changed : ConnectionState → Effect
  work_changed : Bool → Effect
  close_status : ℕ → String → Effect
  probe_called : ℕ → Effect
  reconnect_scheduled : ℕ → Effect
  on_authentication_required on_room_full on_room_unavailable on_reconnect_exhausted : Effect

pub record State : Type 0 where
  pub socket : Option ℕ
  pub reconnect_timer : Option ℕ
  pub connect_timer : Option ℕ
  pub join_timer : Option ℕ
  pub stopped : Bool
  pub probing : Bool
  pub probe_generation : ℕ
  pub joined : Bool
  pub attempt : ℕ
  pub state : ConnectionState
  pub reconnect_pending : List ℕ
  pub connect_pending : List (ℕ × ℕ)
  pub join_pending : List (ℕ × ℕ)
  pub next_timer : ℕ
  pub next_socket : ℕ
  pub live : List ℕ
  pub log : List Effect

-- A controller as the constructor leaves it.
abbrev pub new : State
new = record {
  socket = none;
  reconnect_timer = none;
  connect_timer = none;
  join_timer = none;
  stopped = false;
  probing = false;
  probe_generation = 0;
  joined = false;
  attempt = 0;
  state = offline;
  reconnect_pending = [];
  connect_pending = [];
  join_pending = [];
  next_timer = 1;
  next_socket = 1;
  live = [];
  log = [];
}

abbrev pub without : ℕ → List ℕ → List ℕ
without n [] = []
without n (x ∷ xs) = let rest = without n xs in if x == n then rest else x ∷ rest

abbrev pub has : ℕ → List ℕ → Bool
has n [] = false
has n (x ∷ xs) = if x == n then true else has n xs

-- The same for timers that hold a socket.
abbrev pub drop_timer : ℕ → List (ℕ × ℕ) → List (ℕ × ℕ)
drop_timer n [] = []
drop_timer n ((x, socket) ∷ xs) =
    let rest = drop_timer n xs in if x == n then rest else (x, socket) ∷ rest

abbrev pub timer_socket : ℕ → List (ℕ × ℕ) → Option ℕ
timer_socket n [] = none
timer_socket n ((x, socket) ∷ xs) = if x == n then some socket else timer_socket n xs

abbrev pub same_state : ConnectionState → ConnectionState → Bool
same_state connecting connecting = true
same_state connected connected = true
same_state reconnecting reconnecting = true
same_state offline offline = true
same_state recovery recovery = true
same_state _ _ = false

abbrev pub is_work : ConnectionState → Bool
is_work connecting = true
is_work reconnecting = true
is_work _ = false

pub set_state : ConnectionState → State → State
set_state state s = if same_state s.state state then s else record s {
  state = state;
  log = work_changed (is_work state) ∷ state_changed state ∷ s.log;
}

pub clear_reconnect_timer : State → State
clear_reconnect_timer s = elim s.reconnect_timer [
  | none ↦ s
  | some id ↦ record s {
    reconnect_timer = none;
    reconnect_pending = without id s.reconnect_pending;
  }
]

pub clear_connect_timer : State → State
clear_connect_timer s = elim s.connect_timer [
  | none ↦ s
  | some id ↦ record s { connect_timer = none; connect_pending = drop_timer id s.connect_pending }
]

pub clear_join_timer : State → State
clear_join_timer s = elim s.join_timer [
  | none ↦ s
  | some id ↦ record s { join_timer = none; join_pending = drop_timer id s.join_pending }
]

pub clear_attempt_timers : State → State
unfolding clear_connect_timer clear_join_timer
clear_attempt_timers s = clear_join_timer (clear_connect_timer s)

pub clear_timers : State → State
unfolding clear_reconnect_timer clear_attempt_timers
clear_timers s = clear_attempt_timers (clear_reconnect_timer s)

pub cancel_probe : State → State
cancel_probe s = record s { probing = false; probe_generation = s.probe_generation + 1 }

pub is_current : ℕ → State → Bool
is_current id s = not s.stopped && elim s.socket [ none ↦ false | some c ↦ c == id ]

pub is_current_probe : Bool → ℕ → State → Bool
is_current_probe online generation s =
    not s.stopped && s.probing && s.probe_generation == generation && online

-- `socket.close(code, reason)`
pub close_socket : ℕ → ℕ → String → State → State
close_socket id code reason s = record s {
  live = without id s.live;
  log = close_called id code reason ∷ s.log;
}

-- The socket is let go of, and closed if there was one.
pub drop_socket : String → State → State
unfolding clear_attempt_timers close_socket
drop_socket reason s =
    let dropped = record (clear_attempt_timers (record s { socket = none })) { joined = false } in
    elim s.socket [ none ↦ dropped | some id ↦ close_socket id 1000 reason dropped ]

pub open_socket : State → State
unfolding set_state clear_reconnect_timer
open_socket s =
    let cleared = record (clear_reconnect_timer s) { joined = false } in
    let busy = set_state (if s.attempt == 0 then connecting else reconnecting) cleared in
    record busy {
      socket = some busy.next_socket;
      next_socket = busy.next_socket + 1;
      live = busy.next_socket ∷ busy.live;
      connect_timer = some busy.next_timer;
      connect_pending = (busy.next_timer, busy.next_socket) ∷ busy.connect_pending;
      next_timer = busy.next_timer + 1;
      log = socket_created busy.next_socket ∷ busy.log;
    }

pub connect : Bool → State → State
unfolding open_socket set_state
connect online s =
    if s.stopped || is_some s.socket || not online
    then (if not s.stopped && not online then set_state offline s else s)
    else open_socket s

pub start : Bool → State → State
start online s = connect online (record s { stopped = false })

pub stop : State → State
unfolding cancel_probe clear_reconnect_timer drop_socket set_state
stop s = set_state offline (
    drop_socket "leaving live room"
      (clear_reconnect_timer (cancel_probe (record s { stopped = true }))))

-- The method `online`.
pub come_online : Bool → State → State
come_online online s =
    if s.stopped || is_some s.socket || s.probing || is_some s.reconnect_timer
    then s
    else connect online (record s { attempt = 0 })

-- The method `offline`.
pub go_offline : State → State
unfolding cancel_probe clear_reconnect_timer drop_socket set_state
go_offline s =
    if s.stopped
    then s
    else set_state offline (drop_socket "browser offline" (clear_reconnect_timer (cancel_probe s)))

pub mark_joined : State → State
unfolding clear_join_timer set_state
mark_joined s =
    if not (is_some s.socket) || s.stopped
    then s
    else set_state connected (clear_join_timer (record s { joined = true; attempt = 0 }))

pub schedule_reconnect : Bool → ℕ → State → State
unfolding set_state
schedule_reconnect online delay s =
    if s.stopped || is_some s.reconnect_timer || not online
    then s
    else (let busy = set_state reconnecting s in
        record busy {
          reconnect_timer = some busy.next_timer;
          reconnect_pending = busy.next_timer ∷ busy.reconnect_pending;
          next_timer = busy.next_timer + 1;
          log = reconnect_scheduled delay ∷ busy.log;
        })

pub reconnect_after_resync : Bool → State → State
unfolding drop_socket
reconnect_after_resync online s =
    if s.stopped then s else schedule_reconnect online 0 (drop_socket "resynchronizing" s)

-- `ready` is `socket.readyState === socketOpen`.
unfoldable pub send : Bool → State → Bool × State
send ready s = elim s.socket [
  | none ↦ (false, s)
  | some id ↦
      if not s.joined || not ready
      then (false, s)
      else (true, record s { log = message_sent id ∷ s.log })
]

-- The listeners of socket `id`.
pub socket_opened : ℕ → State → State
unfolding clear_connect_timer is_current
socket_opened id s =
    if is_current id s
    then (let cleared = clear_connect_timer s in
        record cleared {
          join_timer = some cleared.next_timer;
          join_pending = (cleared.next_timer, id) ∷ cleared.join_pending;
          next_timer = cleared.next_timer + 1;
          log = join_sent id ∷ cleared.log;
        })
    else s

-- `none` is data that is no text.
pub socket_message : ℕ → Option String → State → State
unfolding is_current
socket_message id text s =
    if is_current id s
    then elim text [ none ↦ s | some t ↦ record s { log = message_received t ∷ s.log } ]
    else s
