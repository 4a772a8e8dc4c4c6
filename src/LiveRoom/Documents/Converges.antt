-- ===== src/LiveRoom/Documents/Converges.antt =====
-- The synchronized contents follow the authority's history of a document, in whatever order its events
-- arrive.
use xbin.Common.{
  ℕ, zero, suc, ◌+◌, ◌≡◌, refl, sym, ap, subst, ◌∙◌, String, Bool-cases, false, Option,
  Option-cases, Option-split, some, leb, ◌==◌, str_eq, eq_iff, arith, inl, inr, ◌⊎◌, if-split,
  ==_iff, ◌>>=◌, if◌then◌else◌,
}
use mathlib.Core.Option.{some-injective}
use xbin.Json.{Value}
use xbin.Wire.Types.{RoomDocument}
use xbin.LiveRoom.{
  Applied, applied, gap, Editing, Update, Room, lookup, insert, find_document, or_else,
  settle_operation, get_editor_state, make_live_editor_state, update_editor_state,
  apply_live_changes,
}
use xbin.LiveRoom.Maps.{lookup-insert, lookup-insert_other, find_document-id, get_editor_state-held}
use xbin.LiveRoom.Documents.{
  DocumentEvent, record_event, receive_event, judge_event, apply_document_event,
}
use xbin.LiveRoom.Documents.Steps.{
  finished, finished-maps, update_editor_state-maps, receive_event-refused, receive_event-received,
  receive_event-unknown, record_event-refused, record_event-recorded,
}

module _ {Editor Changes : Type 0} (o : Editing Editor Changes) (client_id id : String) (start : ℕ)
    (text : String) (history : ℕ → Value) where
  -- The authority's text after `k` more revisions than `start`: the change sets of its history, applied
  -- one after the other.
  unfoldable pub text_after : ℕ → Option String
  text_after zero = some text
  text_after (suc k) = do
    before ← text_after k
    changes ← o.from_json (history (start + suc k))
    o.apply changes before

  -- The editor is at a revision of the authority's, and the synchronized contents are its text there.
  pub record InStep (r : Room Editor) : Type 0 where
    pub editor : Editor
    pub synced_text : String
    pub after : ℕ
    pub has_editor : lookup id r.editors ≡ some editor
    pub has_text : lookup id r.synced ≡ some synced_text
    pub at_version : o.synced_version editor ≡ start + after
    pub shows_text : text_after after ≡ some synced_text

  applied_text :
      (changes : Changes) (t t' : String) (k : ℕ) (previous : String)
      → o.from_json (history (start + suc k)) ≡ some changes
      → text_after k ≡ some t
      → text_after (suc k) ≡ some t'
      → previous ≡ t
      → apply_live_changes o previous changes ≡ some t'
  unfolding text_after apply_live_changes
  applied_text changes t t' k previous c x x' e = ground arith

  -- What the room shows of the document beside the two maps does not matter.
  same_maps :
      (r s : Room Editor) → s.editors ≡ r.editors → s.synced ≡ r.synced → InStep r → InStep s
  same_maps r s e f h = record {
    editor = h.editor;
    synced_text = h.synced_text;
    after = h.after;
    has_editor = ap (lookup id) e ∙ h.has_editor;
    has_text = ap (lookup id) f ∙ h.has_text;
    at_version = h.at_version;
    shows_text = h.shows_text;
  }

  -- The event is one of the authority's history, or of another document.
  abbrev pub IsOfHistory : DocumentEvent → Type 0
  IsOfHistory event = (event.document_id ≡ id) → event.changes ≡ history event.revision

  -- What may happen to the room: events of the authority, in any order, as often as they come, and edits of
  -- the user, which leave the synchronized version as it is.
  pub data Runs (r : Room Editor) : Room Editor → Type 0 where
    starts : Runs r r
    receives :
        {s : Room Editor} (event : DocumentEvent)
        → IsOfHistory event
        → Runs r s
        → Runs r (apply_document_event o client_id event s).1
    edits :
        {s : Room Editor} (document_id : String) (before after : Editor)
        → lookup document_id s.editors ≡ some before
        → o.synced_version after ≡ o.synced_version before
        → Runs r s
        → Runs r (update_editor_state o document_id after s)

  -- The law of `receiveUpdates`: one update is one version.
  module _
      (law : (u : Update Changes) (e e' : Editor)
        → o.receive u e ≡ some e'
        → o.synced_version e' ≡ suc (o.synced_version e))
      (defined : (k : ℕ) → (t : String) × (text_after k ≡ some t)) where
    finished-InStep :
        (event : DocumentEvent) (r : Room Editor) → InStep r → InStep (finished o event r)
    finished-InStep event r h =
        let (a, b) = finished-maps o event r in same_maps r (finished o event r) a b h

    -- Other documents' events.
    inserted_other :
        (k : String) (e : Editor) (t : String) (r s : Room Editor)
        → str_eq k id ≡ false
        → (s.editors ≡ r.editors) ⊎ (s.editors ≡ insert k e r.editors)
        → (s.synced ≡ r.synced) ⊎ (s.synced ≡ insert k t r.synced)
        → InStep r
        → InStep s
    inserted_other k e t r s n a b h =
        let editors : lookup id s.editors ≡ lookup id r.editors = elim a [
          | inl p ↦ ap (lookup id) p
          | inr p ↦ ap (lookup id) p ∙ lookup-insert_other k id e r.editors n
        ] in
        let synced : lookup id s.synced ≡ lookup id r.synced = elim b [
          | inl p ↦ ap (lookup id) p
          | inr p ↦ ap (lookup id) p ∙ lookup-insert_other k id t r.synced n
        ] in
        record {
          editor = h.editor;
          synced_text = h.synced_text;
          after = h.after;
          has_editor = editors ∙ h.has_editor;
          has_text = synced ∙ h.has_text;
          at_version = h.at_version;
          shows_text = h.shows_text;
        }

    record_event-other :
        (event : DocumentEvent) (changes : Changes) (document : RoomDocument) (r : Room Editor)
        → str_eq event.document_id id ≡ false
        → InStep r
        → InStep (record_event o event changes document r).1
    record_event-other event changes document r n h =
        let previous = or_else (lookup event.document_id r.synced) document.content in
        elim (Option-cases (apply_live_changes o previous changes)) [
          | inl e ↦ subst InStep (sym (record_event-refused o event changes document r e)) h
          | inr (t, e) ↦
              let set = record r { synced = insert event.document_id t r.synced } in
              subst InStep (sym (record_event-recorded o event changes document r t e)) (
                finished-InStep event set
                  (inserted_other event.document_id h.editor t r set n (inl refl) (inr refl) h))
        ]

    receive_event-other :
        (event : DocumentEvent) (changes : Changes) (document : RoomDocument) (r : Room Editor)
        → str_eq event.document_id id ≡ false
        → InStep r
        → InStep (receive_event o event changes document r).1
    receive_event-other event changes document r n h =
        elim (Option-cases (lookup event.document_id r.editors)) [
          | inl e ↦
              subst (λ p. InStep p.1) (sym (receive_event-unknown o event changes document r e))
                (record_event-other event changes document r n h)
          | inr (e, f) ↦
              elim (Option-cases
                (o.receive (record { changes = changes; client_id = event.client_id }) e)) [
                  | inl g ↦
                      subst InStep (sym (receive_event-refused o event changes document r e f g)) h
                  | inr (e', g) ↦
                      let set = record r { editors = insert event.document_id e' r.editors } in
                      subst (λ p. InStep p.1)
                        (sym (receive_event-received o event changes document r e e' f g))
                        (record_event-other event changes document set n (
                          inserted_other event.document_id e' h.synced_text r set n (inr refl)
                            (inl refl) h))
                ]
        ]

    -- The next change set of the document itself.
    record_event-next :
        (event : DocumentEvent) (changes : Changes) (document : RoomDocument) (r : Room Editor)
        (e : Editor) (t : String) (k : ℕ)
        → event.document_id ≡ id
        → o.from_json (history (start + suc k)) ≡ some changes
        → lookup id r.editors ≡ some e
        → lookup id r.synced ≡ some t
        → o.synced_version e ≡ start + suc k
        → text_after k ≡ some t
        → InStep (record_event o event changes document r).1
    record_event-next event changes document r e t k own c he ht v x =
        let (t', x') = defined (suc k) in
        let set = record r { synced = insert event.document_id t' r.synced } in
        let here = ap (λ i. lookup i (insert event.document_id t' r.synced)) (sym own) in
        let step : InStep set = record {
          editor = e;
          synced_text = t';
          after = suc k;
          has_editor = he;
          has_text = here ∙ lookup-insert event.document_id t' r.synced;
          at_version = v;
          shows_text = x';
        } in
        subst InStep
          (sym (
            record_event-recorded o event changes document r t' (
              applied_text changes t t' k
                (or_else (lookup event.document_id r.synced) document.content) c x x'
                (ground (arith, ap (λ i. lookup i r.synced) own)))))
          (finished-InStep event set step)

    receive_event-next :
        (event : DocumentEvent) (changes : Changes) (document : RoomDocument) (r : Room Editor)
        (h : InStep r)
        → event.document_id ≡ id
        → o.from_json (history (start + suc h.after)) ≡ some changes
        → InStep (receive_event o event changes document r).1
    receive_event-next event changes document r h own c =
        let u : Update Changes = record { changes = changes; client_id = event.client_id } in
        let he : lookup event.document_id r.editors ≡ some h.editor =
          ap (λ i. lookup i r.editors) own ∙ h.has_editor in
        elim (Option-cases (o.receive u h.editor)) [
          | inl g ↦
              subst InStep (sym (receive_event-refused o event changes document r h.editor he g)) h
          | inr (e', g) ↦
              let set = record r { editors = insert event.document_id e' r.editors } in
              let here = ap (λ i. lookup i (insert event.document_id e' r.editors)) (sym own) in
              subst (λ p. InStep p.1)
                (sym (receive_event-received o event changes document r h.editor e' he g))
                (record_event-next event changes document set e' h.synced_text h.after own c
                  (here ∙ lookup-insert event.document_id e' r.editors) h.has_text
                  (omega (arith, law u h.editor e' g, h.at_version)) h.shows_text)
        ]

    get_editor_state-InStep :
        (document : RoomDocument) (r : Room Editor)
        → InStep r
        → InStep (get_editor_state o client_id document r).1
    unfolding get_editor_state
    get_editor_state-InStep document r h =
        Option-split (λ (p : Editor × Room Editor). InStep p.1) (lookup document.id r.editors)
          (λ e.
            inserted_other document.id (make_live_editor_state o document client_id)
              document.content r _
              (ground (arith, eq_iff document.id id, h.has_editor, ap (λ i. lookup i r.editors)))
              (inr refl) (inr refl) h)
          (λ e found. h)

    settle_operation-InStep :
        (op : String) (r : Room Editor) → InStep r → InStep (settle_operation op r)
    unfolding settle_operation
    settle_operation-InStep op r h = same_maps r _ refl refl h

    -- The branch of a revision that is the next, for the document's own events and for others.
    next-InStep :
        (event : DocumentEvent) (changes : Changes) (document : RoomDocument) (r : Room Editor)
        (e : Editor)
        → IsOfHistory event
        → o.from_json event.changes ≡ some changes
        → lookup event.document_id r.editors ≡ some e
        → event.revision ≡ o.synced_version e + 1
        → InStep r
        → InStep (receive_event o event changes document r).1
    next-InStep event changes document r e f c held n h =
        elim (Bool-cases (str_eq event.document_id id)) [
          | inr other ↦ receive_event-other event changes document r other h
          | inl same ↦
              let own : event.document_id ≡ id = (eq_iff event.document_id id).0 same in
              let editor : some h.editor ≡ some e =
                sym h.has_editor ∙ ap (λ i. lookup i r.editors) (sym own) ∙ held in
              let version : o.synced_version h.editor ≡ o.synced_version e =
                ap o.synced_version (some-injective _ _ editor) in
              let revision : event.revision ≡ start + suc h.after =
                omega (arith, n, version, h.at_version) in
              receive_event-next event changes document r h own
                (ap o.from_json (ap history (sym revision) ∙ sym (f own)) ∙ c)
        ]

    judge_event-InStep :
        (event : DocumentEvent) (changes : Changes) (document : RoomDocument) (e : Editor)
        (r : Room Editor)
        → IsOfHistory event
        → o.from_json event.changes ≡ some changes
        → lookup event.document_id r.editors ≡ some e
        → InStep r
        → InStep (judge_event o event changes document e r).1
    unfolding judge_event
    judge_event-InStep event changes document e r f c held h =
        if-split (λ (p : Applied × Room Editor). InStep p.1)
          {x = (applied, settle_operation event.operation_id r)}
          {y = if event.revision == o.synced_version e + 1
            then receive_event o event changes document r
            else (gap, r)}
          (leb event.revision (o.synced_version e))
          (λ t. settle_operation-InStep event.operation_id r h)
          (λ t.
            if-split (λ (p : Applied × Room Editor). InStep p.1)
              {x = receive_event o event changes document r} {y = (gap, r)}
              (event.revision == o.synced_version e + 1)
              (λ n.
                next-InStep event changes document r e f c held
                  ((==_iff event.revision (o.synced_version e + 1)).0 n) h)
              (λ n. h))

    apply_document_event-InStep :
        (event : DocumentEvent) (r : Room Editor)
        → IsOfHistory event
        → InStep r
        → InStep (apply_document_event o client_id event r).1
    unfolding apply_document_event
    apply_document_event-InStep event r f h =
        Option-split (λ (p : Applied × Room Editor). InStep p.1) (o.from_json event.changes)
          (λ e. h)
          (λ changes c.
            Option-split (λ (p : Applied × Room Editor). InStep p.1)
              (find_document event.document_id r.documents) (λ e. h)
              (λ document found.
                let (state, got) = get_editor_state o client_id document r in
                let named = find_document-id event.document_id r.documents document found in
                let held =
                  ap (λ i. lookup i got.editors) (sym named)
                  ∙ get_editor_state-held o client_id document r in
                judge_event-InStep event changes document state got f c held
                  (get_editor_state-InStep document r h)))

    update_editor_state-InStep :
        (k : String) (before after : Editor) (r : Room Editor)
        → lookup k r.editors ≡ some before
        → o.synced_version after ≡ o.synced_version before
        → InStep r
        → InStep (update_editor_state o k after r)
    update_editor_state-InStep k before after r e v h = elim (Bool-cases (str_eq k id)) [
      | inr other ↦
          let (a, b) = update_editor_state-maps o k after r in
          inserted_other k after h.synced_text r (update_editor_state o k after r) other (inr a)
            (inl b) h
      | inl same ↦
          let (a, b) = update_editor_state-maps o k after r in
          let own : k ≡ id = (eq_iff k id).0 same in
          let editor : some h.editor ≡ some before =
            sym h.has_editor ∙ ap (λ i. lookup i r.editors) (sym own) ∙ e in
          record {
            editor = after;
            synced_text = h.synced_text;
            after = h.after;
            has_editor =
                ap (lookup id) a
                ∙ ap (λ i. lookup i (insert k after r.editors)) (sym own)
                ∙ lookup-insert k after r.editors;
            has_text = ap (lookup id) b ∙ h.has_text;
            at_version = v ∙ ap o.synced_version (sym (some-injective _ _ editor)) ∙ h.at_version;
            shows_text = h.shows_text;
          }
    ]

  -- Whatever order the authority's events arrive in, how often and with what gaps, and whatever is typed in
  -- between: the synchronized contents are the authority's text at the revision that the editor has.
  pub runs-InStep :
      ((u : Update Changes) (e e' : Editor)
        → o.receive u e ≡ some e'
        → o.synced_version e' ≡ suc (o.synced_version e))
      → ((k : ℕ) → (t : String) × (text_after k ≡ some t))
      → {r s : Room Editor} → InStep r
      → Runs r s
      → InStep s
  runs-InStep law defined h starts = h
  runs-InStep law defined h (receives {s} event f rest) =
      apply_document_event-InStep law defined event s f (runs-InStep law defined h rest)
  runs-InStep law defined h (edits {s} k before after e v rest) =
      update_editor_state-InStep law defined k before after s e v (runs-InStep law defined h rest)
