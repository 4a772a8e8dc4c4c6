-- ===== src/LiveRoom/Resyncing.antt =====
-- The room and the controller of its snapshots: the options that web/src/live-room.tsx gives to LiveResyncController,
-- and handleEvent with that controller.
--
-- `online` is whether the browser is online, `drawn` the random id of a recovery; the loading indicator is left out.
pub mod Quiet
pub mod Failing
mod Tests
use xbin.Common.{
  ℕ, String, Bool, true, false, not, ◌&&◌, ◌||◌, Option, none, some, List, [], ◌∷◌, ◌++◌,
  if◌then◌else◌, map,
}
use xbin.Wire.Types.{
  Event, RoomDocument, joined, changes, document_created, document_updated, document_deleted,
  document_reordered,
}
use xbin.LiveApi.{RoomSnapshot}
use xbin.LiveApi
use xbin.Reconciliation.{Authority, is_authority_event}
use xbin.Connection
use xbin.Connection.{recovery, reconnecting}
use xbin.Resync
use xbin.Resync.{
  Options, Reconciled, reconciled, rejected, raised, Applying, applies, refuses, raises, Reason,
  State, Input,
}
use xbin.LiveRoom.{
  Editing, Room, Recovery, Applied, applied, gap, thrown, set_connection_state, update_editor_state,
}
use xbin.LiveRoom.Documents.{DocumentEvent, apply_document_event}
use xbin.LiveRoom.Metadata.{
  created, updated, deleted, reordered, MetadataEvent, apply_metadata_event,
}
use xbin.LiveRoom.Outbound.{Client}
use xbin.LiveRoom.Reconcile.{current_revision_authority, reconcile_snapshot}
use xbin.LiveRoom.Events.{
  Effect, snapshot_refreshed, said, Session, event_type, in_room, emit, handle,
}
use xbin.LiveRoom.Exports.{recovery_text}

pub room_document : LiveApi.Document → RoomDocument
room_document d = record {
  id = d.id;
  name = d.name;
  language = d.language;
  content = d.content;
  revision = d.revision;
  position = d.position;
}

abbrev pub resync_message : String
resync_message =
    "Live room resynchronization could not reach a safe state. Your local text is preserved for recovery."

-- `void refreshSnapshot()` was called.
pub is_refresh : Effect → Bool
is_refresh snapshot_refreshed = true
is_refresh _ = false

pub asks_refresh : List Effect → Bool
unfolding is_refresh
asks_refresh [] = false
asks_refresh (e ∷ es) = is_refresh e || asks_refresh es

pub reconciled_as : Applied → Reconciled
reconciled_as applied = reconciled
reconciled_as gap = rejected
reconciled_as thrown = raised

pub applying_as : Applied → Applying
applying_as applied = applies
applying_as gap = refuses
applying_as thrown = raises

pub known_as : Bool → Applying
known_as true = applies
known_as false = refuses

module _ {Editor : Type 0} where
  -- A call of the connection's controller, whose new state reaches the room by onState.
  pub control : (Connection.State → Connection.State) → Session Editor → Session Editor
  unfolding set_connection_state
  control f s =
      let socket = f s.client.socket in
      let room =
        if Connection.same_state s.client.socket.state socket.state
        then s.client.room
        else set_connection_state socket.state s.client.room in
      record s { client = record s.client { socket = socket; room = room } }

  -- onStarted
  pub on_started : Session Editor → Session Editor
  unfolding in_room set_connection_state
  on_started s =
      in_room
        (λ (r : Room Editor). set_connection_state reconnecting (record r { resyncing = true })) s

  -- onSucceeded
  pub on_succeeded : Bool → Session Editor → Session Editor
  unfolding in_room control set_connection_state
  on_succeeded online s =
      let ended = in_room (λ (r : Room Editor). record r { resyncing = false }) s in
      if ended.client.room.recovering
      then in_room (set_connection_state recovery) (control Connection.stop ended)
      else control (Connection.reconnect_after_resync online) ended

module _ {Editor Changes : Type 0} (o : Editing Editor Changes) (client_id limit_message : String)
    (drawn : String) (online ready : Bool) where
  -- enterResyncRecovery
  pub enter_resync_recovery : Session Editor → Session Editor
  unfolding in_room control emit set_connection_state
  enter_resync_recovery s =
      let kept : Recovery = record {
        operation_id = drawn;
        text = recovery_text o s.client.room;
        message = resync_message;
      } in
      let shown =
        in_room
          (λ (r : Room Editor). record r {
            recovering = true;
            recovery_shown = some kept;
            resyncing = false;
          })
          s in
      emit (said resync_message)
        (in_room (set_connection_state recovery) (control Connection.stop shown))

  pub with_room : Room Editor → Session Editor → Session Editor
  with_room r s = record s { client = record s.client { room = r } }

  -- The branches of applyBuffered.
  pub apply_changes : DocumentEvent → Session Editor → Applying × Session Editor
  unfolding with_room applying_as
  apply_changes event s =
      let (result, r) = apply_document_event o client_id event s.client.room in
      (applying_as result, with_room r s)

  pub apply_metadata : MetadataEvent → Session Editor → Applying × Session Editor
  unfolding with_room known_as
  apply_metadata event s =
      let (known, r) = apply_metadata_event o client_id event s.client.room in
      (known_as known, with_room r s)

  -- applyBuffered
  pub apply_buffered : Event → Session Editor → Applying × Session Editor
  unfolding apply_changes apply_metadata
  apply_buffered (changes op client id base revision v) s =
      apply_changes
        (record {
          operation_id = op;
          client_id = client;
          document_id = id;
          revision = revision;
          changes = v;
        })
        s
  apply_buffered (document_created op client revision d) s =
      apply_metadata (record { operation_id = op; revision = revision; change = created d }) s
  apply_buffered (document_updated op client id revision name language) s =
      apply_metadata
        (record { operation_id = op; revision = revision; change = updated id name language }) s
  apply_buffered (document_deleted op client id revision) s =
      apply_metadata (record { operation_id = op; revision = revision; change = deleted id }) s
  apply_buffered (document_reordered op client revision order) s =
      apply_metadata (record { operation_id = op; revision = revision; change = reordered order }) s
  apply_buffered _ s = (applies, s)

  -- `reconcile`
  pub reconcile : RoomSnapshot → Authority → Session Editor → Reconciled × Session Editor
  unfolding with_room reconciled_as room_document
  reconcile snapshot authority s =
      let (result, r) =
        reconcile_snapshot o client_id (map room_document snapshot.documents)
          snapshot.metadata_revision authority snapshot.accepted_operation_ids s.client.room in
      (reconciled_as result, with_room r s)

  -- The controller's options, with its defaults.
  pub room_options : Options RoomSnapshot Event Authority (Session Editor)
  unfolding on_started on_succeeded enter_resync_recovery apply_buffered reconcile
  room_options = record {
    capture_authority = λ s. current_revision_authority o client_id s.client.room;
    reconcile = reconcile;
    apply_buffered = apply_buffered;
    on_started = on_started;
    on_succeeded = on_succeeded online;
    on_failed = λ reason. enter_resync_recovery;
    buffer_limit = 128;
    max_attempts = 4;
    max_elapsed_ms = 10000;
    retry_base_ms = 150;
    retry_max_ms = 1200;
  }

  -- The `switch` of handleEvent, then the calls of refreshSnapshot that it makes.
  pub dispatch :
      ℕ
      → ℕ
      → Event
      → State Event Authority (Session Editor)
      → State Event Authority (Session Editor)
  unfolding asks_refresh room_options
  dispatch now later event s =
      let before : Session Editor = record s.app { effects = [] } in
      let after = (handle o client_id limit_message ready s.active event before).1 in
      let next : State Event Authority (Session Editor) = record s {
        app = record after { effects = after.effects ++ s.app.effects };
      } in
      if asks_refresh after.effects then Resync.start room_options now later next else next

  -- handleEvent
  pub receive_wire_event :
      ℕ
      → ℕ
      → Event
      → State Event Authority (Session Editor)
      → State Event Authority (Session Editor)
  unfolding dispatch room_options
  receive_wire_event now later event s =
      if is_authority_event (event_type event)
      then (let (kept, s') = Resync.buffer_event room_options now event s in
          if kept then s' else dispatch now later event s')
      else dispatch now later event s

-- What may happen to a room and its controller: an input of the controller, a wire event, or a transaction of an
-- editor's view. Each comes with what the browser is like at the time.
pub data Happening (Editor : Type 0) : Type 0 where
  controller : Input RoomSnapshot Event Authority → Happening Editor
  wire : ℕ → ℕ → Event → Happening Editor
  edited : String → Editor → Happening Editor

pub record Moment (Editor : Type 0) : Type 0 where
  pub happening : Happening Editor
  pub drawn : String
  pub online : Bool
  pub ready : Bool

module _ {Editor Changes : Type 0} (o : Editing Editor Changes)
    (client_id limit_message : String) where
  pub happen :
      String
      → Bool
      → Bool
      → Happening Editor
      → State Event Authority (Session Editor)
      → State Event Authority (Session Editor)
  unfolding in_room
  happen drawn online ready (controller i) s =
      Resync.step (room_options o client_id limit_message drawn online ready) s i
  happen drawn online ready (wire now later event) s =
      receive_wire_event o client_id limit_message drawn online ready now later event s
  happen drawn online ready (edited id e) s = record s {
    app = in_room (update_editor_state o id e) s.app;
  }

  pub live :
      List (Moment Editor)
      → State Event Authority (Session Editor)
      → State Event Authority (Session Editor)
  unfolding happen
  live [] s = s
  live (m ∷ ms) s = live ms (happen m.drawn m.online m.ready m.happening s)
