-- ===== src/LiveRoom/Outbound.antt =====
-- What the room sends: send, replayPendingMetadata, flushChanges, sendMetadata and the commands of the
-- tabs of web/src/live-room.tsx.
pub mod Marks
pub mod Modes
pub mod Turns
pub mod Once
use xbin.Common.{
  ℕ, ◌+◌, String, Bool, true, false, not, ◌&&◌, ◌||◌, Option, none, some, List, [], ◌∷◌, leb, ◌==◌,
  is_some, if◌then◌else◌, str_eq, length, map,
}
use xbin.Json.{Value, string, number, natural, array, Fields, end, field, values}
use xbin.Wire.Types.{RoomDocument}
use xbin.Operations.{Operation, metadata, document, track, get, should_send, mark_sent, clear}
use xbin.Connection
use xbin.Connection.{ConnectionState, connected}
use xbin.LiveRoom.{Editing, Update, Room, find_document, next_live_outbound_update}

-- The room with its socket's controller, and the messages that were handed to the socket, newest first.
pub record Client (Editor : Type 0) : Type 0 where
  pub room : Room Editor
  pub socket : Connection.State
  pub sent : List Fields

abbrev pub is_joined : ConnectionState → Bool
is_joined connected = true
is_joined _ = false

abbrev pub is_metadata : Operation → Bool
is_metadata op = elim op.kind [ metadata ↦ true | document ↦ false ]

abbrev pub text_field : String → String → Fields → Fields
text_field k s fields = field k (string s) fields

-- `ready` is whether the socket is open, which does not change while a handler runs.
module _ {Editor : Type 0} (ready : Bool) where
  -- `send`
  unfoldable pub send : Fields → Client Editor → Bool × Client Editor
  send message c =
      let (accepted, socket) = Connection.send ready c.socket in
      elim accepted [
        | true ↦ (true, record c { socket = socket; sent = message ∷ c.sent })
        | false ↦ (false, record c { socket = socket })
      ]

  -- `operationTrackerRef.current.markSent(id, generation)`
  unfoldable pub mark : String → ℕ → Client Editor → Client Editor
  unfolding mark_sent
  mark id generation c = record c {
    room = record c.room { tracker = (mark_sent id generation c.room.tracker).1 };
  }

  -- An operation is handed to the socket; it counts as sent if the socket took it.
  pub send_operation : String → ℕ → Fields → Client Editor → Bool × Client Editor
  unfolding send mark
  send_operation id generation message c =
      let (accepted, c) = send message c in
      elim accepted [ true ↦ (true, mark id generation c) | false ↦ (false, c) ]

  -- replayPendingMetadata
  pub replay_pending_metadata : ℕ → Client Editor → Client Editor
  unfolding get should_send send_operation
  replay_pending_metadata generation c =
      elim (get (some c.room.metadata_operation) c.room.tracker) [
        | none ↦ c
        | some op ↦
            if not (is_metadata op) || not (should_send op.id generation c.room.tracker)
            then c
            else (send_operation op.id generation op.message c).1
      ]

-- The loop of flushChanges. The random id of a transaction is drawn once and kept in operationIDsRef:
-- `drawn` gives it for the transaction's number.
module _ {Editor Changes : Type 0} (o : Editing Editor Changes) (client_id : String)
    (drawn : ℕ → String) (ready : Bool) where
  pub push_changes : String → String → ℕ → Changes → Fields
  push_changes operation_id document_id base_version changes = text_field "type" "push_changes" (
      text_field "operation_id" operation_id (
        text_field "client_id" client_id (
          text_field "document_id" document_id (
            field "base_version" (number (natural base_version))
              (field "changes" (o.to_json changes) end)))))

  -- `track`, if the operation is not known yet
  pub track_changes : String → String → Editor → Fields → Client Editor → Client Editor
  unfolding get track
  track_changes operation_id document_id e message c =
      if is_some (get (some operation_id) c.room.tracker) then c else record c {
        room = record c.room {
          tracker =
              track
                (record {
                  id = operation_id;
                  kind = document;
                  generation = c.room.generation;
                  document_id = some document_id;
                  recovery_text = o.text e;
                  message = message;
                  sent_generation = none;
                  terminal = false;
                })
                c.room.tracker;
        };
      }

  -- One operation of the loop; `false` ends it.
  pub flush_operation : String → String → Editor → Fields → Client Editor → Bool × Client Editor
  unfolding track_changes should_send send_operation
  flush_operation operation_id document_id e message c =
      let tracked = track_changes operation_id document_id e message c in
      if should_send operation_id tracked.room.generation tracked.room.tracker
      then send_operation ready operation_id tracked.room.generation message tracked
      else (true, tracked)

  -- One turn of the loop.
  pub flush_editor : String → Editor → Client Editor → Bool × Client Editor
  unfolding next_live_outbound_update push_changes flush_operation
  flush_editor document_id e c = elim (next_live_outbound_update o e) [
    | none ↦ (true, c)
    | some (base_version, (update, origin)) ↦
        flush_operation (drawn origin) document_id e
          (push_changes (drawn origin) document_id base_version update.changes) c
  ]

  pub flush_editors : List (String × Editor) → Client Editor → Client Editor
  unfolding flush_editor
  flush_editors [] c = c
  flush_editors ((id, e) ∷ es) c =
      let (goes_on, c') = flush_editor id e c in
      elim goes_on [ true ↦ flush_editors es c' | false ↦ c' ]

  -- flushChanges
  unfoldable pub flush_changes : Client Editor → Client Editor
  unfolding flush_editors
  flush_changes c =
      if not (is_joined c.room.connection)
        || c.room.resyncing
        || c.room.recovering
        || not c.room.can_edit
      then c
      else flush_editors c.room.editors c
