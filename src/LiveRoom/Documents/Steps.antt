-- ===== src/LiveRoom/Documents/Steps.antt =====
-- What each part of the handler of a `changes` event does to the editors and the synchronized contents.
use xbin.Common.{ℕ, ◌≡◌, ◌∙◌, String, Bool, true, false, Option-split, none, some, arith, if-both}
use xbin.Wire.Types.{RoomDocument}
use xbin.LiveRoom.{
  Editing, Update, Room, lookup, insert, or_else, settle_operation, schedule_flush,
  update_queue_state, update_editor_state, apply_live_changes,
}
use xbin.LiveRoom.Documents.{
  DocumentEvent, apply_to_editor, show_content, record_event, receive_event,
}

module _ {Editor Changes : Type 0} (o : Editing Editor Changes) where
  pub update_queue_state-maps :
      (b : Bool) (r : Room Editor)
      → ((update_queue_state o b r).editors ≡ r.editors)
        × ((update_queue_state o b r).synced ≡ r.synced)
  unfolding update_queue_state
  update_queue_state-maps b r = (ground arith, ground arith)

  pub show_content-maps :
      (id : String) (n : ℕ) (r : Room Editor)
      → ((show_content o id n r).editors ≡ r.editors) × ((show_content o id n r).synced ≡ r.synced)
  unfolding show_content
  show_content-maps id n r = (ground arith, ground arith)

-- What is done once the synchronized contents are set.
abbrev pub finished :
    {Editor Changes : Type 0} → Editing Editor Changes → DocumentEvent → Room Editor → Room Editor
finished o event r = schedule_flush (
    settle_operation event.operation_id
      (update_queue_state o true (show_content o event.document_id event.revision r)))

pub schedule_flush-maps :
    {Editor : Type 0} (r : Room Editor)
    → ((schedule_flush r).editors ≡ r.editors) × ((schedule_flush r).synced ≡ r.synced)
unfolding schedule_flush
schedule_flush-maps r = (ground arith, ground arith)

module _ {Editor Changes : Type 0} (o : Editing Editor Changes) where
  pub finished-maps :
      (event : DocumentEvent) (r : Room Editor)
      → ((finished o event r).editors ≡ r.editors) × ((finished o event r).synced ≡ r.synced)
  unfolding settle_operation
  finished-maps event r =
      let shown = show_content o event.document_id event.revision r in
      let a = show_content-maps o event.document_id event.revision r in
      let b = update_queue_state-maps o true shown in
      let c =
        schedule_flush-maps
          (settle_operation event.operation_id (update_queue_state o true shown)) in
      (c.0 ∙ b.0 ∙ a.0, c.1 ∙ b.1 ∙ a.1)

  pub update_editor_state-maps :
      (k : String) (e : Editor) (r : Room Editor)
      → ((update_editor_state o k e r).editors ≡ insert k e r.editors)
        × ((update_editor_state o k e r).synced ≡ r.synced)
  unfolding update_editor_state
  update_editor_state-maps k e r =
      let set = record r { editors = insert k e r.editors } in
      let queued = update_queue_state o false set in
      let (a, b) = update_queue_state-maps o false set in
      let (c, d) = schedule_flush-maps queued in
      Option-split (λ (q : Room Editor). (q.editors ≡ insert k e r.editors) × (q.synced ≡ r.synced))
        (lookup k r.editors) (λ _. (c ∙ a, d ∙ b))
        (λ previous _.
          if-both (λ (q : Room Editor). (q.editors ≡ insert k e r.editors) × (q.synced ≡ r.synced))
            {x = schedule_flush queued} {y = queued} (c ∙ a, d ∙ b) (a, b) _)

  module _ (event : DocumentEvent) (changes : Changes) (document : RoomDocument)
      (r : Room Editor) where
    abbrev pub update_of : Update Changes
    update_of = record { changes = changes; client_id = event.client_id }

    pub receive_event-refused :
        (e : Editor)
        → lookup event.document_id r.editors ≡ some e
        → o.receive update_of e ≡ none
        → (receive_event o event changes document r).1 ≡ r
    unfolding receive_event apply_to_editor
    receive_event-refused e h t = ground arith

    pub receive_event-received :
        (e e' : Editor)
        → lookup event.document_id r.editors ≡ some e
        → o.receive update_of e ≡ some e'
        → receive_event o event changes document r
          ≡ record_event o event changes document
              (record r { editors = insert event.document_id e' r.editors })
    unfolding receive_event apply_to_editor
    receive_event-received e e' h t = ground arith

    pub receive_event-unknown :
        lookup event.document_id r.editors ≡ none
        → receive_event o event changes document r ≡ record_event o event changes document r
    unfolding receive_event apply_to_editor
    receive_event-unknown h = ground arith

    pub record_event-refused :
        apply_live_changes o (or_else (lookup event.document_id r.synced) document.content) changes
          ≡ none
        → (record_event o event changes document r).1 ≡ r
    unfolding record_event
    record_event-refused h = ground arith

    pub record_event-recorded :
        (t : String)
        → apply_live_changes o
            (or_else (lookup event.document_id r.synced) document.content)
            changes
          ≡ some t
        → (record_event o event changes document r).1
          ≡ finished o event (record r { synced = insert event.document_id t r.synced })
    unfolding record_event
    record_event-recorded t h = ground arith
