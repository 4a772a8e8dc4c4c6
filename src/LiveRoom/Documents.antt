-- ===== src/LiveRoom/Documents.antt =====
-- The `changes` event: applyToEditor and applyDocumentEvent of web/src/live-room.tsx.
pub mod Steps
pub mod Modes
pub mod Converges
use xbin.Common.{
  ℕ, ◌+◌, String, Bool, true, false, not, Option, none, some, List, [], ◌∷◌, leb, ◌==◌,
  if◌then◌else◌, str_eq,
}
use xbin.Json.{Value}
use xbin.Wire.Types.{RoomDocument}
use xbin.LiveRoom.{
  Applied, applied, gap, thrown, settle_operation, Update, Editing, Room, lookup, insert,
  find_document, or_else, schedule_flush, update_queue_state, get_editor_state, apply_live_changes,
}

-- A `changes` event's fields that the room reads.
pub record DocumentEvent : Type 0 where
  pub operation_id : String
  pub client_id : String
  pub document_id : String
  pub revision : ℕ
  pub changes : Value

-- `documents.map`: the content and the revision of one document are replaced.
pub set_content : String → String → ℕ → List RoomDocument → List RoomDocument
set_content id content revision [] = []
set_content id content revision (d ∷ ds) =
    let rest = set_content id content revision ds in
    if str_eq d.id id then record d { content = content; revision = revision } ∷ rest else d ∷ rest

module _ {Editor Changes : Type 0} (o : Editing Editor Changes) where
  -- applyToEditor. A mounted view holds the editor state of the map and hands its new one back.
  pub apply_to_editor : String → Update Changes → Room Editor → Option (Room Editor)
  unfolding lookup insert
  apply_to_editor id update r = elim (lookup id r.editors) [
    | none ↦ some r
    | some e ↦ elim (o.receive update e) [
      | none ↦ none
      | some e' ↦ some (record r { editors = insert id e' r.editors })
    ]
  ]

  -- `nextContent`, and the documents that show it.
  pub show_content : String → ℕ → Room Editor → Room Editor
  unfolding lookup set_content
  show_content id revision r = elim (lookup id r.editors) [
    | none ↦ r
    | some e ↦ record r { documents = set_content id (o.text e) revision r.documents }
  ]

  -- The rest of applyDocumentEvent, from the update of the synchronized contents on.
  pub record_event : DocumentEvent → Changes → RoomDocument → Room Editor → Applied × Room Editor
  unfolding insert show_content settle_operation schedule_flush apply_live_changes
      update_queue_state
  record_event event changes document r =
      elim (apply_live_changes o (or_else (lookup event.document_id r.synced) document.content)
        changes) [
          | none ↦ (thrown, r)
          | some text ↦
              let synced = record r { synced = insert event.document_id text r.synced } in
              let shown = show_content event.document_id event.revision synced in
              (
                applied,
                schedule_flush
                    (settle_operation event.operation_id (update_queue_state o true shown)),
              )
        ]

  -- The branch of a revision that is the next.
  pub receive_event : DocumentEvent → Changes → RoomDocument → Room Editor → Applied × Room Editor
  unfolding apply_to_editor record_event
  receive_event event changes document r =
      elim (apply_to_editor event.document_id
        (record { changes = changes; client_id = event.client_id }) r) [
          | none ↦ (thrown, r)
          | some r' ↦ record_event event changes document r'
        ]

  -- The comparison of the event's revision with the editor's.
  pub judge_event :
      DocumentEvent → Changes → RoomDocument → Editor → Room Editor → Applied × Room Editor
  unfolding settle_operation receive_event
  judge_event event changes document state r =
      if leb event.revision (o.synced_version state)
      then (applied, settle_operation event.operation_id r)
      else if event.revision == o.synced_version state + 1
      then receive_event event changes document r
      else (gap, r)

  -- applyDocumentEvent, for the event `changes`
  pub apply_document_event : String → DocumentEvent → Room Editor → Applied × Room Editor
  unfolding find_document get_editor_state judge_event
  apply_document_event client_id event r = elim (o.from_json event.changes) [
    | none ↦ (gap, r)
    | some changes ↦ elim (find_document event.document_id r.documents) [
      | none ↦ (applied, r)
      | some document ↦
          let (state, r) = get_editor_state o client_id document r in
          judge_event event changes document state r
    ]
  ]
