-- ===== src/LiveRoom/Resyncing/Failing.antt =====
-- The room of web/src/live-room.tsx after a session of its snapshots' controller failed.
use xbin.Common.{
  ℕ, ◌≡◌, sym, subst, String, Bool, true, false, some, List, [], ◌∷◌, ◌++◌, map, if-both,
  if◌then◌else◌, arith,
}
use xbin.Wire.Types.{Event}
use xbin.Reconciliation.{Authority, is_authority_event}
use xbin.LiveApi.{RoomSnapshot}
use xbin.Connection.{recovery}
use xbin.Resync
use xbin.Resync.{State, Reason, has}
use xbin.Resync.Safety.{IsSafe, new-IsSafe, step-IsSafe, start-IsSafe, buffer_event-IsSafe}
use xbin.Resync.Budget.{fire_deadline-app, deadline_ends}
use xbin.LiveRoom.{Editing, Room, Recovery, set_connection_state}
use xbin.LiveRoom.Exports.{with_edited_text, recovery_text}
use xbin.LiveRoom.Exports.Whole.{AllWithin, recovery_text-AllWithin}
use xbin.LiveRoom.Events.{Session, event_type, in_room, emit, handle}
use xbin.LiveRoom.Resyncing.{
  control, enter_resync_recovery, room_options, resync_message, asks_refresh, dispatch,
  receive_wire_event, Happening, controller, wire, edited, Moment, happen, live,
}

-- The room is in recovery, and the text that it shows holds the text of every tab that the room has before.
pub record IsRecovered {Editor Changes : Type 0} (o : Editing Editor Changes)
    (before after : Room Editor) : Type 0 where
  pub recovering : after.recovering ≡ true
  pub connection : after.connection ≡ recovery
  pub resyncing : after.resyncing ≡ false
  pub kept : Recovery
  pub shown : after.recovery_shown ≡ some kept
  pub whole : AllWithin (map (with_edited_text o before) before.documents) kept.text

module _ {Editor Changes : Type 0} (o : Editing Editor Changes) (client_id limit_message : String)
    (drawn : String) (online ready : Bool) where
  enter_resync_recovery-IsRecovered :
      (s : Session Editor)
      → IsRecovered o s.client.room
          (enter_resync_recovery o client_id limit_message drawn online ready s).client.room
  unfolding enter_resync_recovery in_room emit control set_connection_state
  enter_resync_recovery-IsRecovered s = record {
    recovering = ground arith;
    connection = ground arith;
    resyncing = ground arith;
    kept = record {
      operation_id = drawn;
      text = recovery_text o s.client.room;
      message = resync_message;
    };
    shown = ground arith;
    whole = recovery_text-AllWithin o s.client.room;
  }

  failed-IsRecovered :
      (id : ℕ) (s : State Event Authority (Session Editor))
      → s.active ≡ true
      → has id s.deadline_pending ≡ true
      → IsRecovered o s.app.client.room
          (Resync.fire_deadline
            (room_options o client_id limit_message drawn online ready)
            id
            s).app.client.room
  unfolding room_options
  failed-IsRecovered id s on pending =
      subst (λ (a : Session Editor). IsRecovered o s.app.client.room a.client.room)
        (sym (
          fire_deadline-app (room_options o client_id limit_message drawn online ready) id s on
            pending))
        (enter_resync_recovery-IsRecovered s.app)

module _ {Editor Changes : Type 0} (o : Editing Editor Changes)
    (client_id limit_message : String) where
  -- The controller's invariant, which neither the room nor what the browser is like enters.
  abbrev Safe : State Event Authority (Session Editor) → Type 0
  Safe s = IsSafe (room_options o client_id limit_message "" true true) s

  moved-IsSafe :
      (drawn drawn' : String) (online online' ready ready' : Bool)
      (s : State Event Authority (Session Editor)) (a : Session Editor)
      → IsSafe (room_options o client_id limit_message drawn online ready) s
      → IsSafe (room_options o client_id limit_message drawn' online' ready') (record s { app = a })
  unfolding room_options
  moved-IsSafe drawn drawn' online online' ready ready' s a v = record {
    idle_request = v.idle_request;
    idle_retry = v.idle_retry;
    idle_deadline = v.idle_deadline;
    idle_buffer = v.idle_buffer;
    watched = v.watched;
    one_wait = v.one_wait;
    retry_held = v.retry_held;
    deadline_held = v.deadline_held;
    bounded = v.bounded;
    budgeted = v.budgeted;
  }

  dispatch-IsSafe :
      (drawn : String) (online ready : Bool) (now later : ℕ) (event : Event)
      (s : State Event Authority (Session Editor))
      → IsSafe (room_options o client_id limit_message drawn online ready) s
      → IsSafe
          (room_options o client_id limit_message drawn online ready)
          (dispatch o client_id limit_message drawn online ready now later event s)
  unfolding dispatch
  dispatch-IsSafe drawn online ready now later event s v =
      let options = room_options o client_id limit_message drawn online ready in
      let before : Session Editor = record s.app { effects = [] } in
      let after = (handle o client_id limit_message ready s.active event before).1 in
      let app : Session Editor = record after { effects = after.effects ++ s.app.effects } in
      let next : State Event Authority (Session Editor) = record s { app = app } in
      let kept = moved-IsSafe drawn drawn online online ready ready s app v in
      if-both (IsSafe options) {x = Resync.start options now later next} {y = next}
        (start-IsSafe options now later kept) kept (asks_refresh after.effects)

  wire-IsSafe :
      (drawn : String) (online ready : Bool) (now later : ℕ) (event : Event)
      (s : State Event Authority (Session Editor))
      → IsSafe (room_options o client_id limit_message drawn online ready) s
      → IsSafe
          (room_options o client_id limit_message drawn online ready)
          (receive_wire_event o client_id limit_message drawn online ready now later event s)
  unfolding receive_wire_event
  wire-IsSafe drawn online ready now later event s v =
      let options = room_options o client_id limit_message drawn online ready in
      let (kept, s') = Resync.buffer_event options now event s in
      let buffered = buffer_event-IsSafe options now event v in
      let handed = λ (t : State Event Authority (Session Editor)).
        dispatch o client_id limit_message drawn online ready now later event t in
      if-both (IsSafe options) {x = if kept then s' else handed s'} {y = handed s}
        (if-both (IsSafe options) {x = s'} {y = handed s'} buffered
          (dispatch-IsSafe drawn online ready now later event s' buffered) kept)
        (dispatch-IsSafe drawn online ready now later event s v)
        (is_authority_event (event_type event))

  deadline_pending :
      (options : Resync.Options RoomSnapshot Event Authority (Session Editor)) (id : ℕ)
      (s : State Event Authority (Session Editor))
      → IsSafe options s
      → s.deadline_timer ≡ some id
      → has id s.deadline_pending ≡ true
  deadline_pending options id s v e = ground arith

  happen-IsSafe :
      (drawn : String) (online ready : Bool) (h : Happening Editor)
      (s : State Event Authority (Session Editor))
      → Safe s
      → Safe (happen o client_id limit_message drawn online ready h s)
  unfolding happen in_room
  happen-IsSafe drawn online ready (controller i) s v =
      let options = room_options o client_id limit_message drawn online ready in
      let next = Resync.step options s i in
      moved-IsSafe drawn "" online true ready true next next.app
        (step-IsSafe options i (moved-IsSafe "" drawn true online true ready s s.app v))
  happen-IsSafe drawn online ready (wire now later event) s v =
      let next =
        receive_wire_event o client_id limit_message drawn online ready now later event s in
      moved-IsSafe drawn "" online true ready true next next.app (
        wire-IsSafe drawn online ready now later event s
          (moved-IsSafe "" drawn true online true ready s s.app v))
  happen-IsSafe drawn online ready (edited id e) s v = moved-IsSafe "" "" true true true true s _ v

  live-IsSafe :
      (ms : List (Moment Editor)) (s : State Event Authority (Session Editor))
      → Safe s
      → Safe (live o client_id limit_message ms s)
  unfolding live
  live-IsSafe [] s v = v
  live-IsSafe (m ∷ ms) s v =
      live-IsSafe ms (happen o client_id limit_message m.drawn m.online m.ready m.happening s)
        (happen-IsSafe m.drawn m.online m.ready m.happening s v)

  -- The deadline of an active session ends it, and the recovery then shows what the room holds: after any sequence of
  -- wire events, calls of the controller, answers, timers and edits in a room with a new controller, an active session
  -- has a deadline pending; when it fires the session is over, the room is in recovery, and the text that the recovery
  -- shows holds the text of every tab that the room has at that moment, as its editor has it, or the room where it
  -- has no editor. (The text of a tab that a snapshot had dropped before is not among them.)
  pub live-recovers :
      (ms : List (Moment Editor)) (room : Session Editor) (drawn : String) (online ready : Bool)
      → (live o client_id limit_message ms (Resync.new room)).active ≡ true
      → (id : ℕ) × ((live o client_id limit_message ms (Resync.new room)).deadline_timer ≡ some id)
        × ((Resync.fire_deadline
              (room_options o client_id limit_message drawn online ready)
              id
              (live o client_id limit_message ms (Resync.new room))).active
            ≡ false)
        × IsRecovered o
            (live o client_id limit_message ms (Resync.new room)).app.client.room
            (Resync.fire_deadline
              (room_options o client_id limit_message drawn online ready)
              id
              (live o client_id limit_message ms (Resync.new room))).app.client.room
  live-recovers ms room drawn online ready on =
      let options = room_options o client_id limit_message drawn online ready in
      let s = live o client_id limit_message ms (Resync.new room) in
      let v = moved-IsSafe "" drawn true online true ready s s.app (
        live-IsSafe ms (Resync.new room)
          (new-IsSafe (room_options o client_id limit_message "" true true) room)) in
      let (id, timer, over, told, retries, deadlines) = deadline_ends options s v on in
      (
        id,
        timer,
        over,
        failed-IsRecovered o client_id limit_message drawn online ready id s on
            (deadline_pending options id s v timer),
      )
