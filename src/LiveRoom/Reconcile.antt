-- ===== src/LiveRoom/Reconcile.antt =====
-- A snapshot replaces what the room knows: reconcileSnapshot and currentRevisionAuthority of
-- web/src/live-room.tsx, with liveSnapshotUpdates and rebaseAfterAcceptedSnapshot of
-- web/src/live-collab.ts.
pub mod Keeps
pub mod Unsent
pub mod Merged
pub mod Adopted
pub mod Turning
pub mod CaughtUp
pub mod Shown
pub mod Modes
mod Tests
use xbin.Common.{
  ℕ, zero, suc, ◌+◌, ◌-◌, String, Bool, true, false, not, ◌&&◌, ◌||◌, Option, none, some, List, [],
  ◌∷◌, ◌++◌, leb, ltb, if◌then◌else◌, is_some, str_eq, str_append, decimal, includes, map,
  utf16_units,
}
use xbin.Json.{Value, property}
use xbin.Wire.Types.{RoomDocument}
use xbin.Collab
use xbin.Collab.{diff_live_documents}
use xbin.Connection.{recovery}
use xbin.Operations.{Operation, metadata, document}
use xbin.Reconciliation.{Revision, Authority, capture_authority, snapshot_can_reconcile}
use xbin.LiveRoom.{
  Editing, Update, Room, Recovery, Applied, applied, gap, thrown, lookup, insert, delete, or_else,
  settle_operation, set_connection_state, get_editor_state, make_live_editor_state,
  apply_live_changes, normalize_live_documents,
}
use xbin.LiveRoom.Metadata.{end_metadata_operation, keep_active}

-- `new Map(documents.map(…)).get(id)`: of two documents with one id the later counts.
pub latest_document : String → List RoomDocument → Option RoomDocument
latest_document id [] = none
latest_document id (d ∷ ds) = elim (latest_document id ds) [
  | some e ↦ some e
  | none ↦ if str_eq d.id id then some d else none
]

pub snapshot_revisions : List RoomDocument → List Revision
snapshot_revisions ds = map (λ (d : RoomDocument). record { id = d.id; revision = d.revision }) ds

abbrev pub is_metadata_operation : Operation → Bool
is_metadata_operation op = elim op.kind [ metadata ↦ true | document ↦ false ]

-- The operation changes the document and was accepted.
pub accepts_document : List String → String → Operation → Bool
accepts_document accepted id op =
    not (is_metadata_operation op)
    && elim op.document_id [ none ↦ false | some d ↦ str_eq d id ]
    && includes op.id accepted

unfoldable pub accepted_operation : List String → String → List Operation → Option Operation
unfolding accepts_document
accepted_operation accepted id [] = none
accepted_operation accepted id (op ∷ ops) =
    if accepts_document accepted id op then some op else accepted_operation accepted id ops

-- The loop that settles the accepted operations on the tabs.
pub settle_accepted : {Editor : Type 0} → List String → List Operation → Room Editor → Room Editor
unfolding settle_operation end_metadata_operation
settle_accepted accepted [] r = r
settle_accepted accepted (op ∷ ops) r =
    let settled = end_metadata_operation op.id (settle_operation op.id r) in
    settle_accepted accepted ops
      (if includes op.id accepted && is_metadata_operation op then settled else r)

-- The document of an editor is gone: an editor with unsent updates is kept for recovery.
abbrev pub tab_changed_message : String
tab_changed_message =
    "A tab changed while this room resynchronized. Your local text is preserved for recovery."

module _ {Editor Changes : Type 0} (o : Editing Editor Changes) (client_id : String) where
  -- The revision that a document has in the room.
  pub known_revision : Room Editor → RoomDocument → ℕ
  unfolding lookup
  known_revision r d = elim (lookup d.id r.editors) [
    | none ↦ d.revision
    | some e ↦ o.synced_version e
  ]

  -- currentRevisionAuthority
  pub current_revision_authority : Room Editor → Authority
  unfolding known_revision
  current_revision_authority r =
      capture_authority r.metadata_revision (
        map (λ (d : RoomDocument). record { id = d.id; revision = known_revision r d }) r.documents)

  -- The loop of liveSnapshotUpdates, which pads the revisions that the snapshot skips.
  pub padding_updates : ℕ → ℕ → Changes → List (Update Changes)
  padding_updates zero index changes = []
  padding_updates (suc left) index changes =
      record {
        changes = o.change_set (Collab.empty (o.new_length changes));
        client_id = str_append "snapshot-resync-" (decimal 16 index);
      }
      ∷ padding_updates left (suc index) changes

  -- liveSnapshotUpdates
  pub live_snapshot_updates : Changes → ℕ → ℕ → List (Update Changes)
  unfolding padding_updates
  live_snapshot_updates changes revision current_revision =
      if leb revision current_revision
      then []
      else record { changes = changes; client_id = "snapshot-resync" }
        ∷ padding_updates (revision - current_revision - 1) 1 changes

  -- diffLiveDocuments, as a change set
  pub diff_documents : String → String → Changes
  diff_documents before after =
      o.change_set (diff_live_documents (utf16_units before) (utf16_units after))

  -- rebaseAfterAcceptedSnapshot; an exception is caught.
  pub rebase_after_accepted_snapshot :
      String → String → List (Update Changes) → Option (List (Update Changes))
  unfolding apply_live_changes diff_documents
  rebase_after_accepted_snapshot synced snapshot [] = some []
  rebase_after_accepted_snapshot synced snapshot (u ∷ us) =
      elim (apply_live_changes o synced u.changes) [
        | none ↦ none
        | some after_accepted ↦ o.rebase us (
            record { changes = diff_documents after_accepted snapshot; client_id = "http-snapshot" }
            ∷ [])
      ]

  -- The transactions and the received updates of the two loops.
  pub update_all : List (Update Changes) → Editor → Option Editor
  update_all [] e = some e
  update_all (u ∷ us) e = elim (o.update u.changes e) [ none ↦ none | some e' ↦ update_all us e' ]

  pub receive_all : List (Update Changes) → Editor → Option Editor
  receive_all [] e = some e
  receive_all (u ∷ us) e = elim (o.receive u e) [ none ↦ none | some e' ↦ receive_all us e' ]

  pub pending_of : Editor → List (Update Changes)
  pending_of e = map (λ (p : Update Changes × ℕ). p.0) (o.sendable e)

  pub drop_editor : String → Room Editor → Room Editor
  unfolding delete
  drop_editor id r = record r { editors = delete id r.editors; synced = delete id r.synced }

  -- The document is no longer in the room.
  pub remove_editor : String → Editor → Room Editor → Room Editor
  unfolding drop_editor set_connection_state pending_of
  remove_editor id e r = elim (pending_of e) [
    | [] ↦ drop_editor id r
    | _ ∷ _ ↦
        let kept : Recovery = record {
          operation_id = str_append "deleted-" id;
          text = o.text e;
          message = tab_changed_message;
        } in
        drop_editor id (
          set_connection_state recovery
            (record r { recovering = true; recovery_shown = some kept }))
  ]

  pub place_editor : String → String → Editor → Room Editor → Room Editor
  unfolding insert
  place_editor id content e r = record r {
    editors = insert id e r.editors;
    synced = insert id content r.synced;
  }

  -- The first update that waits is the accepted operation's.
  pub is_first_pending : Editor → Operation → Bool
  unfolding pending_of
  is_first_pending e op = elim (pending_of e) [
    | [] ↦ false
    | u ∷ _ ↦
        str_eq (o.stringify (o.to_json u.changes)) (o.stringify (property "changes" op.message))
  ]

  -- An editor whose first update is in the snapshot: the later ones are replayed over it.
  pub replace_editor :
      RoomDocument → String → Editor → Operation → Room Editor → Applied × Room Editor
  unfolding is_first_pending rebase_after_accepted_snapshot update_all make_live_editor_state
      place_editor settle_operation
  replace_editor next id e op r =
      if not (is_first_pending e op)
      then (gap, r)
      else elim (rebase_after_accepted_snapshot (or_else (lookup id r.synced) (o.text e))
          next.content (pending_of e)) [
            | none ↦ (gap, r)
            | some rebased ↦ elim (update_all rebased (make_live_editor_state o next client_id)) [
              | none ↦ (thrown, r)
              | some current ↦
                  (applied, settle_operation op.id (place_editor id next.content current r))
            ]
          ]

  -- An editor that receives the snapshot's text.
  pub advance_editor : RoomDocument → String → Editor → Room Editor → Applied × Room Editor
  unfolding place_editor
  advance_editor next id e r =
      let changes = diff_documents (or_else (lookup id r.synced) (o.text e)) next.content in
      elim (receive_all (live_snapshot_updates changes next.revision (o.synced_version e)) e) [
        | none ↦ (thrown, r)
        | some current ↦ (applied, place_editor id next.content current r)
      ]

  -- One turn of the loop over the editors.
  pub reconcile_editor :
      List String → List RoomDocument → String → Editor → Room Editor → Applied × Room Editor
  unfolding latest_document remove_editor accepted_operation replace_editor advance_editor
  reconcile_editor accepted next id e r = elim (latest_document id next) [
    | none ↦ (applied, remove_editor id e r)
    | some d ↦
        if leb d.revision (o.synced_version e)
        then (applied, r)
        else elim (accepted_operation accepted id r.tracker) [
          | some op ↦ replace_editor d id e op r
          | none ↦ advance_editor d id e r
        ]
  ]

  pub reconcile_editors :
      List String → List RoomDocument → List (String × Editor) → Room Editor → Applied × Room Editor
  unfolding reconcile_editor
  reconcile_editors accepted next [] r = (applied, r)
  reconcile_editors accepted next ((id, e) ∷ es) r =
      let (result, r') = reconcile_editor accepted next id e r in
      elim result [
        | applied ↦ reconcile_editors accepted next es r'
        | gap ↦ (gap, r')
        | thrown ↦ (thrown, r')
      ]

  -- `mergedDocuments`: each document as its editor has it.
  pub merge_documents : List RoomDocument → Room Editor → List RoomDocument × Room Editor
  unfolding get_editor_state
  merge_documents [] r = ([], r)
  merge_documents (d ∷ ds) r =
      let (e, r') = get_editor_state o client_id d r in
      let (later, r'') = merge_documents ds r' in
      (record d { content = o.text e; revision = o.synced_version e } ∷ later, r'')

  -- What follows the loop.
  pub adopt_snapshot : List RoomDocument → ℕ → Room Editor → Room Editor
  unfolding merge_documents keep_active
  adopt_snapshot next metadata_revision r =
      let (merged, r') = merge_documents next r in
      keep_active (record r' {
        documents = merged;
        pending_order = none;
        metadata_revision =
            if ltb r'.metadata_revision metadata_revision
            then metadata_revision
            else r'.metadata_revision;
      })

  -- reconcileSnapshot
  unfoldable pub reconcile_snapshot :
      List RoomDocument → ℕ → Authority → List String → Room Editor → Applied × Room Editor
  unfolding normalize_live_documents snapshot_revisions current_revision_authority settle_accepted
      reconcile_editors adopt_snapshot
  reconcile_snapshot documents metadata_revision requested accepted r =
      let next = normalize_live_documents documents in
      let snapshot = capture_authority metadata_revision (snapshot_revisions next) in
      if not (snapshot_can_reconcile requested snapshot)
        || not (snapshot_can_reconcile (current_revision_authority r) snapshot)
      then (gap, r)
      else (let settled = settle_accepted accepted r.tracker r in
          let (result, r') = reconcile_editors accepted next settled.editors settled in
          elim result [
            | applied ↦ (applied, adopt_snapshot next metadata_revision r')
            | gap ↦ (gap, r')
            | thrown ↦ (thrown, r')
          ])
