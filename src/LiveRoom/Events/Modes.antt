-- ===== src/LiveRoom/Events/Modes.antt =====
-- handleEvent of web/src/live-room.tsx: the handlers that leave the mode of the room alone.
use xbin.Common.{◌≡◌, refl, ap, String, Bool, Option, none, some, List, if-both, arith}
use xbin.Wire.Types.{Participant}
use xbin.Operations.{Operation}
use xbin.Connection.{ConnectionState}
use xbin.LiveRoom.{Editing, Room}
use xbin.LiveRoom.Modes.{mode}
use xbin.LiveRoom.Documents.{DocumentEvent, apply_document_event}
use xbin.LiveRoom.Documents.Modes.{apply_document_event-mode}
use xbin.LiveRoom.Metadata.{MetadataEvent, end_metadata_operation}
use xbin.LiveRoom.Metadata.Modes.{apply_metadata_event-mode}
use xbin.LiveRoom.Events.{
  Session, in_room, emit, set_local_participant_authority, ask_snapshot, give_up_creation,
  handle_changes, handle_metadata, handle_left, handle_mode,
}

module _ {Editor : Type 0} where
  abbrev pub room : Session Editor → Room Editor
  room s = s.client.room

  pub authority-mode :
      (p : Participant) (s : Session Editor)
      → mode (room (set_local_participant_authority p s)) ≡ mode (room s)
  unfolding set_local_participant_authority in_room mode
  authority-mode p s = refl

  pub ask_snapshot-mode : (s : Session Editor) → mode (room (ask_snapshot s)) ≡ mode (room s)
  unfolding ask_snapshot emit mode
  ask_snapshot-mode s = ground arith

  pub give_up_creation-mode :
      (limit_message : String) (op : Operation) (s : Session Editor)
      → mode (room (give_up_creation limit_message op s)) ≡ mode (room s)
  unfolding give_up_creation in_room emit ask_snapshot end_metadata_operation mode
  give_up_creation-mode limit_message op s = ground arith

module _ {Editor Changes : Type 0} (o : Editing Editor Changes) (client_id limit_message : String)
    (ready : Bool) where
  pub handle_left-mode :
      (id : String) (remaining : Option Participant) (s : Session Editor)
      → mode (room (handle_left o client_id limit_message ready id remaining s)) ≡ mode (room s)
  unfolding handle_left set_local_participant_authority in_room mode
  handle_left-mode id none s = refl
  handle_left-mode id (some p) s = ground arith

  pub handle_mode-mode :
      (watch_only : Bool) (ps : List Participant) (s : Session Editor)
      → mode (room (handle_mode o client_id limit_message ready watch_only ps s)) ≡ mode (room s)
  unfolding handle_mode set_local_participant_authority in_room mode
  handle_mode-mode watch_only ps s = ground arith

  pub handle_changes-mode :
      (event : DocumentEvent) (s : Session Editor)
      → mode (room (handle_changes o client_id limit_message ready event s).1) ≡ mode (room s)
  unfolding handle_changes emit mode
  handle_changes-mode event s =
      let kept : (apply_document_event o client_id event (room s)).1.recovering
            ≡ (room s).recovering
          × (apply_document_event o client_id event (room s)).1.connection ≡ (room s).connection
          × (apply_document_event o client_id event (room s)).1.resyncing ≡ (room s).resyncing =
        (
          ap (λ (m : Bool × ConnectionState × Bool). m.0)
              (apply_document_event-mode o client_id event (room s)),
          ap (λ (m : Bool × ConnectionState × Bool). m.1)
              (apply_document_event-mode o client_id event (room s)),
          ap (λ (m : Bool × ConnectionState × Bool). m.2)
              (apply_document_event-mode o client_id event (room s)),
        ) in
      ground arith

  pub handle_metadata-mode :
      (event : MetadataEvent) (s : Session Editor)
      → mode (room (handle_metadata o client_id limit_message ready event s)) ≡ mode (room s)
  unfolding handle_metadata emit
  handle_metadata-mode event s =
      if-both (λ (t : Session Editor). mode (room t) ≡ mode (room s))
        (apply_metadata_event-mode o client_id event (room s))
        (apply_metadata_event-mode o client_id event (room s)) _
