-- ===== src/LiveRoom/Resyncing/Quiet.antt =====
-- The room and the controller of its snapshots in web/src/live-room.tsx: no edit is flushed while a snapshot is
-- fetched.
use xbin.Common.{
  ℕ, ◌≡◌, refl, subst, ◌∙◌, String, Bool, true, false, List, [], ◌∷◌, ◌++◌, if◌then◌else◌, if-split,
  if-both, arith,
}
use xbin.Wire.Types.{
  Event, changes, document_created, document_updated, document_deleted, document_reordered,
}
use xbin.LiveApi.{RoomSnapshot}
use xbin.Reconciliation.{Authority, is_authority_event}
use xbin.Connection
use xbin.Connection.{recovery}
use xbin.Resync
use xbin.Resync.{Applying, Reason, Input, State}
use xbin.Resync.Owner.{IsOwner, Phase, step-Owned, start-Owned, buffer_event-Owned}
use xbin.LiveRoom.{
  Editing, Room, set_connection_state, update_editor_state, update_queue_state, schedule_flush,
}
use xbin.LiveRoom.Modes.{is_held, mode, IsQuiet, IsQuiet-by_mode, set_connection_state-held}
use xbin.LiveRoom.Documents.{DocumentEvent}
use xbin.LiveRoom.Documents.Modes.{apply_document_event-mode}
use xbin.LiveRoom.Metadata.{MetadataEvent}
use xbin.LiveRoom.Metadata.Modes.{apply_metadata_event-mode}
use xbin.LiveRoom.Outbound.{Client, flush_changes}
use xbin.LiveRoom.Reconcile.Modes.{reconcile_snapshot-IsQuiet}
use xbin.LiveRoom.Events.{Session, event_type, in_room, emit, handle}
use xbin.LiveRoom.Events.Recovering.{handle-IsQuiet}
use xbin.LiveRoom.Resyncing.{
  control, on_started, on_succeeded, enter_resync_recovery, with_room, apply_changes,
  apply_metadata, apply_buffered, reconcile, room_options, asks_refresh, dispatch,
  receive_wire_event, Happening, controller, wire, edited, Moment, happen, live,
}

-- Between sessions the room is not in recovery and connected at once; in a session it also resynchronizes.
abbrev pub Rests : {Editor : Type 0} → Session Editor → Type 0
Rests s = is_held s.client.room ≡ true

abbrev pub Fetches : {Editor : Type 0} → Session Editor → Type 0
Fetches s = (s.client.room.resyncing ≡ true) × (is_held s.client.room ≡ true)

module _ {Editor : Type 0} where
  control-Rests :
      (f : Connection.State → Connection.State) (s : Session Editor) → Rests s → Rests (control f s)
  unfolding control
  control-Rests f s h =
      if-both (λ (r : Room Editor). is_held r ≡ true) h
        (set_connection_state-held (f s.client.socket).state s.client.room) _

  on_started-Fetches : (s : Session Editor) → Fetches (on_started s)
  unfolding on_started in_room is_held
  on_started-Fetches s = (refl, ground arith)

  held_same :
      (s : Session Editor)
      → Rests s
      → Rests (in_room (λ (r : Room Editor). record r { resyncing = false }) s)
  unfolding in_room is_held
  held_same s h = h

  on_succeeded-Rests :
      (online : Bool) (s : Session Editor) → Rests s → Rests (on_succeeded online s)
  unfolding on_succeeded in_room
  on_succeeded-Rests online s h =
      let ended = in_room (λ (r : Room Editor). record r { resyncing = false }) s in
      let stopped = control Connection.stop ended in
      let rests : Rests ended = held_same s h in
      if-split Rests {x = in_room (set_connection_state recovery) stopped}
        {y = control (Connection.reconnect_after_resync online) ended} ended.client.room.recovering
        (λ e. set_connection_state-held recovery stopped.client.room)
        (λ e. control-Rests (Connection.reconnect_after_resync online) ended rests)

  stays_fetching :
      (r s : Room Editor)
      → IsQuiet r s
      → (r.resyncing ≡ true) × (is_held r ≡ true)
      → (s.resyncing ≡ true) × (is_held s ≡ true)
  stays_fetching r s (e, k) (f, h) = (e ∙ f, k h)

  -- What a handler does to the session, apart from its effects, in either phase.
  handled-Quiet :
      (active : Bool) (s t : Session Editor)
      → IsQuiet s.client.room t.client.room
      → Phase Fetches Rests active s
      → Phase Fetches Rests active t
  handled-Quiet true s t q h = stays_fetching s.client.room t.client.room q h
  handled-Quiet false s t (e, k) h = k h

module _ {Editor Changes : Type 0} (o : Editing Editor Changes) where
  fetching-flush :
      (client_id : String) (operation_ids : ℕ → String) (ready : Bool) (c : Client Editor)
      → c.room.resyncing ≡ true
      → flush_changes o client_id operation_ids ready c ≡ c
  unfolding flush_changes
  fetching-flush client_id operation_ids ready c f = ground arith

  update_editor_state-mode :
      (id : String) (e : Editor) (r : Room Editor) → mode (update_editor_state o id e r) ≡ mode r
  unfolding update_editor_state update_queue_state schedule_flush mode
  update_editor_state-mode id e r = ground arith

-- The property of the room and its controller.
abbrev pub Quiet : {Editor : Type 0} → State Event Authority (Session Editor) → Type 0
Quiet s = Phase Fetches Rests s.active s.app

module _ {Editor Changes : Type 0} (o : Editing Editor Changes) (client_id limit_message : String)
    (drawn : String) (online ready : Bool) where
  apply_changes-Fetches :
      (e : DocumentEvent) (s : Session Editor)
      → Fetches s
      → Fetches (apply_changes o client_id limit_message drawn online ready e s).1
  unfolding apply_changes with_room
  apply_changes-Fetches e s h =
      stays_fetching s.client.room _
        (IsQuiet-by_mode s.client.room _ (apply_document_event-mode o client_id e s.client.room)) h

  apply_metadata-Fetches :
      (e : MetadataEvent) (s : Session Editor)
      → Fetches s
      → Fetches (apply_metadata o client_id limit_message drawn online ready e s).1
  unfolding apply_metadata with_room
  apply_metadata-Fetches e s h =
      stays_fetching s.client.room _
        (IsQuiet-by_mode s.client.room _ (apply_metadata_event-mode o client_id e s.client.room)) h

  apply_buffered-Fetches :
      (e : Event) (s : Session Editor)
      → Fetches s
      → Fetches (apply_buffered o client_id limit_message drawn online ready e s).1
  unfolding apply_buffered
  apply_buffered-Fetches (changes op client id base revision v) s h = apply_changes-Fetches _ s h
  apply_buffered-Fetches (document_created op client revision d) s h = apply_metadata-Fetches _ s h
  apply_buffered-Fetches (document_updated op client id revision name language) s h =
      apply_metadata-Fetches _ s h
  apply_buffered-Fetches (document_deleted op client id revision) s h = apply_metadata-Fetches _ s h
  apply_buffered-Fetches (document_reordered op client revision order) s h =
      apply_metadata-Fetches _ s h
  apply_buffered-Fetches _ s h = h

  reconcile-Fetches :
      (d : RoomSnapshot) (authority : Authority) (s : Session Editor)
      → Fetches s
      → Fetches (reconcile o client_id limit_message drawn online ready d authority s).1
  unfolding reconcile with_room
  reconcile-Fetches d authority s h =
      stays_fetching s.client.room _
        (reconcile_snapshot-IsQuiet o client_id _ d.metadata_revision authority
          d.accepted_operation_ids s.client.room)
        h

  enter_resync_recovery-Rests :
      (s : Session Editor)
      → Rests (enter_resync_recovery o client_id limit_message drawn online ready s)
  unfolding enter_resync_recovery in_room emit is_held
  enter_resync_recovery-Rests s = ground arith

  abbrev pub options : Resync.Options RoomSnapshot Event Authority (Session Editor)
  options = room_options o client_id limit_message drawn online ready

  pub room-IsOwner : IsOwner options Fetches Rests
  unfolding room_options
  room-IsOwner = record {
    started = λ s h. on_started-Fetches s;
    reconciling = λ d authority s h. reconcile-Fetches d authority s h;
    applying = λ e s h. apply_buffered-Fetches e s h;
    succeeding = λ s h. on_succeeded-Rests online s h.1;
    failing = λ reason s h. enter_resync_recovery-Rests s;
    stopping = λ s h. h.1;
  }

  dispatch-Quiet :
      (now later : ℕ) (event : Event) (s : State Event Authority (Session Editor))
      → Quiet s
      → Quiet (dispatch o client_id limit_message drawn online ready now later event s)
  unfolding dispatch
  dispatch-Quiet now later event s h =
      let before : Session Editor = record s.app { effects = [] } in
      let after = (handle o client_id limit_message ready s.active event before).1 in
      let next : State Event Authority (Session Editor) = record s {
        app = record after { effects = after.effects ++ s.app.effects };
      } in
      let kept : Quiet next =
        handled-Quiet s.active s.app (record after { effects = after.effects ++ s.app.effects })
          (handle-IsQuiet o client_id limit_message ready s.active event before) h in
      if-both Quiet {x = Resync.start options now later next} {y = next}
        (start-Owned options Fetches Rests room-IsOwner now later next kept) kept
        (asks_refresh after.effects)

  pub receive_wire_event-Quiet :
      (now later : ℕ) (event : Event) (s : State Event Authority (Session Editor))
      → Quiet s
      → Quiet (receive_wire_event o client_id limit_message drawn online ready now later event s)
  unfolding receive_wire_event
  receive_wire_event-Quiet now later event s h =
      let (kept, s') = Resync.buffer_event options now event s in
      let buffered = buffer_event-Owned options Fetches Rests room-IsOwner now event s h in
      let handed = λ (t : State Event Authority (Session Editor)).
        dispatch o client_id limit_message drawn online ready now later event t in
      if-both Quiet {x = if kept then s' else handed s'} {y = handed s}
        (if-both Quiet {x = s'} {y = handed s'} buffered
          (dispatch-Quiet now later event s' buffered) kept)
        (dispatch-Quiet now later event s h) (is_authority_event (event_type event))

module _ {Editor Changes : Type 0} (o : Editing Editor Changes)
    (client_id limit_message : String) where
  happen-Quiet :
      (drawn : String) (online ready : Bool) (h : Happening Editor)
      (s : State Event Authority (Session Editor))
      → Quiet s
      → Quiet (happen o client_id limit_message drawn online ready h s)
  unfolding happen in_room
  happen-Quiet drawn online ready (controller i) s q =
      step-Owned (options o client_id limit_message drawn online ready) Fetches Rests
        (room-IsOwner o client_id limit_message drawn online ready) i s q
  happen-Quiet drawn online ready (wire now later event) s q =
      receive_wire_event-Quiet o client_id limit_message drawn online ready now later event s q
  happen-Quiet drawn online ready (edited id e) s q =
      let m = update_editor_state-mode o id e s.app.client.room in
      handled-Quiet s.active s.app _ (IsQuiet-by_mode s.app.client.room _ m) q

  live-Quiet :
      (ms : List (Moment Editor)) (s : State Event Authority (Session Editor))
      → Quiet s
      → Quiet (live o client_id limit_message ms s)
  unfolding live
  live-Quiet [] s q = q
  live-Quiet (m ∷ ms) s q =
      live-Quiet ms (happen o client_id limit_message m.drawn m.online m.ready m.happening s)
        (happen-Quiet m.drawn m.online m.ready m.happening s q)

  -- No edit is flushed while a snapshot is fetched: a room that is not connected in recovery, with a new controller of
  -- its snapshots, goes through any sequence of wire events, calls of the controller, answers, timers and edits; if
  -- a session of the controller is active afterwards, a flush of the room's changes does nothing, and the room is
  -- not taken for connected while it is in recovery. (An operation on tabs that waits is no edit: a socket that joins
  -- replays it.)
  pub live-quiet :
      (ms : List (Moment Editor)) (room : Session Editor) (operation_ids : ℕ → String)
      (ready : Bool)
      → is_held room.client.room ≡ true
      → (live o client_id limit_message ms (Resync.new room)).active ≡ true
      → (flush_changes o client_id operation_ids ready
            (live o client_id limit_message ms (Resync.new room)).app.client
          ≡ (live o client_id limit_message ms (Resync.new room)).app.client)
        × (is_held (live o client_id limit_message ms (Resync.new room)).app.client.room ≡ true)
  live-quiet ms room operation_ids ready h on =
      let s = live o client_id limit_message ms (Resync.new room) in
      let (fetches, held) =
        subst (λ (b : Bool). Phase Fetches Rests b s.app) on (live-Quiet ms (Resync.new room) h) in
      (fetching-flush o client_id operation_ids ready s.app.client fetches, held)
