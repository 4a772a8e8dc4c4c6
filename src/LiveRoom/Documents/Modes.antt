-- ===== src/LiveRoom/Documents/Modes.antt =====
-- applyDocumentEvent of web/src/live-room.tsx: what it leaves of the room.
use xbin.Common.{
  ℕ, ◌+◌, ◌≡◌, refl, ◌∙◌, String, none, some, Option-split, leb, ◌==◌, if-both, if◌then◌else◌,
  arith,
}
use xbin.Wire.Types.{RoomDocument}
use xbin.LiveRoom.{
  Editing, Update, Room, Applied, applied, gap, schedule_flush, update_queue_state, find_document,
  settle_operation, get_editor_state,
}
use xbin.LiveRoom.Modes.{mode, settle_operation-mode, get_editor_state-mode}
use xbin.LiveRoom.Documents.{
  DocumentEvent, apply_to_editor, show_content, record_event, receive_event, judge_event,
  apply_document_event,
}

module _ {Editor Changes : Type 0} (o : Editing Editor Changes) where
  show_content-mode :
      (id : String) (n : ℕ) (r : Room Editor) → mode (show_content o id n r) ≡ mode r
  unfolding show_content mode
  show_content-mode id n r = ground arith

  record_event-mode :
      (event : DocumentEvent) (c : Changes) (d : RoomDocument) (r : Room Editor)
      → mode (record_event o event c d r).1 ≡ mode r
  unfolding record_event show_content update_queue_state settle_operation schedule_flush mode
  record_event-mode event c d r = ground arith

  apply_to_editor-mode :
      (id : String) (u : Update Changes) (r s : Room Editor)
      → apply_to_editor o id u r ≡ some s
      → mode s ≡ mode r
  unfolding apply_to_editor mode
  apply_to_editor-mode id u r s e = ground arith

  receive_event-mode :
      (event : DocumentEvent) (c : Changes) (d : RoomDocument) (r : Room Editor)
      → mode (receive_event o event c d r).1 ≡ mode r
  unfolding receive_event
  receive_event-mode event c d r =
      Option-split (λ (p : Applied × Room Editor). mode p.1 ≡ mode r) _ (λ e. refl)
        (λ s e. record_event-mode event c d s ∙ apply_to_editor-mode event.document_id _ r s e)

  judge_event-mode :
      (event : DocumentEvent) (c : Changes) (d : RoomDocument) (s : Editor) (r : Room Editor)
      → mode (judge_event o event c d s r).1 ≡ mode r
  unfolding judge_event
  judge_event-mode event c d s r =
      let P = λ (p : Applied × Room Editor). mode p.1 ≡ mode r in
      if-both P {x = (applied, settle_operation event.operation_id r)}
        {y = if event.revision == o.synced_version s + 1
          then receive_event o event c d r
          else (gap, r)}
        (settle_operation-mode event.operation_id r)
        (if-both P {x = receive_event o event c d r} {y = (gap, r)} (receive_event-mode event c d r)
          refl (event.revision == o.synced_version s + 1))
        (leb event.revision (o.synced_version s))

  pub apply_document_event-mode :
      (client_id : String) (event : DocumentEvent) (r : Room Editor)
      → mode (apply_document_event o client_id event r).1 ≡ mode r
  unfolding apply_document_event
  apply_document_event-mode client_id event r =
      let P = λ (p : Applied × Room Editor). mode p.1 ≡ mode r in
      let judged = λ (c : Changes) (d : RoomDocument).
        judge_event o event c d (get_editor_state o client_id d r).0
          (get_editor_state o client_id d r).1 in
      let found = find_document event.document_id r.documents in
      Option-split P {n = (gap, r)}
        {f = λ (c : Changes). elim found [ none ↦ (applied, r) | some d ↦ judged c d ]}
        (o.from_json event.changes) (λ e. refl)
        (λ c e.
          Option-split P {n = (applied, r)} {f = judged c} found (λ e. refl)
            (λ d e.
              judge_event-mode event c d (get_editor_state o client_id d r).0 _
              ∙ get_editor_state-mode o client_id d r))
