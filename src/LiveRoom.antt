-- ===== src/LiveRoom.antt =====
-- web/src/live-room.tsx: the room as the browser keeps it, with what its handlers do to it.
--
-- The state is what the component's refs hold. Each handler takes it and gives the new one. The editor
-- of a document is CodeMirror's, taken as the interface `Editing`; the timers and the socket are
-- those of the controllers, which have modules of their own.
pub mod Maps
pub mod Modes
pub mod Documents
pub mod Metadata
pub mod Outbound
pub mod Reconcile
pub mod Commands
pub mod Exports
pub mod Resyncing
pub mod Events
mod Samples
mod Tests
use xbin.Common.{
  ℕ, ◌+◌, ◌*◌, String, Bool, true, false, not, ◌&&◌, ◌||◌, Option, none, some, List, [], ◌∷◌, ◌++◌,
  ltb, leb, ◌==◌, if◌then◌else◌, str_eq, length, map, utf8_length,
}
use xbin.Json.{Value}
use xbin.Wire.Types.{RoomDocument}
use xbin.Collab
use xbin.Operations.{Operation}
use xbin.Operations
use xbin.Connection.{ConnectionState, connected, recovery}

-- CodeMirror's `Update`
pub record Update (Changes : Type 0) : Type 0 where
  pub changes : Changes
  pub client_id : String

-- What the room uses of CodeMirror: the state of an editor and its change sets. `none` stands for an
-- exception. `create` is EditorState.create with the collab extension, on a text, a start version and
-- a client id; `apply` is ChangeSet.apply on the lines of a text, `update` a
-- transaction with a change set, `change_set` ChangeSet.of or ChangeSet.empty, `rebase` rebaseUpdates; an update that waits to be sent
-- comes with the number of its transaction, its `origin`.
pub record Editing (Editor Changes : Type 0) : Type 0 where
  pub create : String → ℕ → String → Editor
  pub text : Editor → String
  pub synced_version : Editor → ℕ
  pub sendable : Editor → List (Update Changes × ℕ)
  pub receive : Update Changes → Editor → Option Editor
  pub from_json : Value → Option Changes
  pub to_json : Changes → Value
  pub apply : Changes → String → Option String
  pub update : Changes → Editor → Option Editor
  pub change_set : Collab.Change → Changes
  pub new_length : Changes → ℕ
  pub rebase : List (Update Changes) → List (Update Changes) → Option (List (Update Changes))
  -- `JSON.stringify(value)`
  pub stringify : Value → String

-- The argument of setRecovery.
pub record Recovery : Type 0 where
  pub operation_id : String
  pub text : String
  pub message : String

pub record Room (Editor : Type 0) : Type 0 where
  pub documents : List RoomDocument
  pub metadata_revision : ℕ
  pub active : String
  pub pane_ids : List String
  pub new_document_pane : Option ℕ
  pub pending_order : Option (List String)
  pub editors : List (String × Editor)
  pub synced : List (String × String)
  pub tracker : List Operation
  pub generation : ℕ
  pub metadata_operation : String
  pub metadata_busy : Bool
  pub recovering : Bool
  pub recovery_shown : Option Recovery
  pub connection : ConnectionState
  pub resyncing : Bool
  pub can_edit : Bool
  pub queue_full : Bool
  pub flush_scheduled : Bool

module _ {ℓ} {A : Type ℓ} where
  -- `map.get(key)`; a map is a list of its entries in the order of insertion.
  pub lookup : String → List (String × A) → Option A
  lookup k [] = none
  lookup k ((j, a) ∷ m) = if str_eq j k then some a else lookup k m

  -- `map.set(key, value)`
  pub insert : String → A → List (String × A) → List (String × A)
  insert k a [] = (k, a) ∷ []
  insert k a ((j, b) ∷ m) =
      let rest = insert k a m in if str_eq j k then (k, a) ∷ m else (j, b) ∷ rest

  -- `map.delete(key)`
  pub delete : String → List (String × A) → List (String × A)
  delete k [] = []
  delete k ((j, b) ∷ m) = let rest = delete k m in if str_eq j k then m else (j, b) ∷ rest

-- `documents.find((document) => document.id === id)`
pub find_document : String → List RoomDocument → Option RoomDocument
find_document id [] = none
find_document id (d ∷ ds) = if str_eq d.id id then some d else find_document id ds

-- `documents.some((document) => document.id === id)`
pub has_document : String → List RoomDocument → Bool
has_document id [] = false
has_document id (d ∷ ds) = str_eq d.id id || has_document id ds

-- `documents.sort((left, right) => left.position - right.position)`, which is stable
pub insert_document : RoomDocument → List RoomDocument → List RoomDocument
insert_document d [] = d ∷ []
insert_document d (x ∷ xs) =
    let rest = insert_document d xs in if leb d.position x.position then d ∷ x ∷ xs else x ∷ rest

pub sort_documents : List RoomDocument → List RoomDocument
unfolding insert_document
sort_documents [] = []
sort_documents (d ∷ ds) = insert_document d (sort_documents ds)

-- normalizeLiveDocuments
pub normalize_live_documents : List RoomDocument → List RoomDocument
unfolding sort_documents
normalize_live_documents ds = sort_documents ds

abbrev pub or_else {ℓ} : {A : Type ℓ} → Option A → A → A
or_else none a = a
or_else (some b) a = b

-- `setConnectionState`: a recovery is not left for a connection.
pub set_connection_state : {Editor : Type 0} → ConnectionState → Room Editor → Room Editor
set_connection_state connected r = record r {
  connection = if r.recovering then recovery else connected;
}
set_connection_state next r = record r { connection = next }

-- `scheduleFlush`: one timer at a time.
pub schedule_flush : {Editor : Type 0} → Room Editor → Room Editor
schedule_flush r = if r.flush_scheduled then r else record r { flush_scheduled = true }

-- What a handler of an event comes to: `true`, `false` (the snapshot is to be fetched again), or an
-- exception.
pub data Applied : Type 0 where
  applied gap thrown : Applied

-- `operationTrackerRef.current.settle(operationID, connectionGenerationRef.current)`
pub settle_operation : {Editor : Type 0} → String → Room Editor → Room Editor
unfolding Operations.settle
settle_operation id r = record r {
  tracker = (Operations.settle (some id) r.generation r.tracker).1;
}

-- LiveQueueState
pub record Queue : Type 0 where
  pub updates : ℕ
  pub bytes : ℕ
  pub full : Bool

module _ {Editor Changes : Type 0} (o : Editing Editor Changes) where
  -- The inner loop of liveQueueState.
  pub count_updates : List (Update Changes × ℕ) → ℕ × ℕ → ℕ × ℕ
  count_updates [] total = total
  count_updates ((u, origin) ∷ us) (updates, bytes) =
      count_updates us (updates + 1, bytes + utf8_length (o.stringify (o.to_json u.changes)))

  pub count_editors : List (String × Editor) → ℕ × ℕ → ℕ × ℕ
  unfolding count_updates
  count_editors [] total = total
  count_editors ((id, e) ∷ es) total = count_editors es (count_updates (o.sendable e) total)

  -- liveQueueState, with the limits of a room
  pub live_queue_state : List (String × Editor) → Queue
  unfolding count_editors
  live_queue_state es =
      let (updates, bytes) = count_editors es (0, 0) in
      record { updates = updates; bytes = bytes; full = ltb 64 updates || ltb (48 * 1024) bytes }

  -- updateQueueState
  pub update_queue_state : Bool → Room Editor → Room Editor
  unfolding live_queue_state
  update_queue_state replayed r =
      if (live_queue_state r.editors).full
      then record r { queue_full = true }
      else if replayed && r.queue_full
      then record r { queue_full = false }
      else r

  -- nextLiveOutboundUpdate: the first update that waits, with the version it stands on.
  pub next_live_outbound_update : Editor → Option (ℕ × (Update Changes × ℕ))
  next_live_outbound_update e = elim (o.sendable e) [
    | [] ↦ none
    | update ∷ _ ↦ some (o.synced_version e, update)
  ]

  -- makeLiveEditorState
  pub make_live_editor_state : RoomDocument → String → Editor
  make_live_editor_state document client_id = o.create document.content document.revision client_id

  -- getEditorState: the editor of a document, made if there is none.
  pub get_editor_state : String → RoomDocument → Room Editor → Editor × Room Editor
  unfolding lookup insert make_live_editor_state
  get_editor_state client_id document r = elim (lookup document.id r.editors) [
    | some e ↦ (e, r)
    | none ↦
        let created = make_live_editor_state document client_id in
        (
          created,
          record r {
            editors = insert document.id created r.editors;
            synced = insert document.id document.content r.synced;
          },
        )
  ]

  -- applyLiveChanges
  pub apply_live_changes : String → Changes → Option String
  apply_live_changes content changes = o.apply changes content

  -- updateEditorState: the state of an editor after a transaction of its view. The flush is scheduled
  -- if the text or the version is new.
  pub update_editor_state : String → Editor → Room Editor → Room Editor
  unfolding lookup insert update_queue_state schedule_flush
  update_editor_state id e r =
      let queued = update_queue_state false (record r { editors = insert id e r.editors }) in
      elim (lookup id r.editors) [
        | none ↦ schedule_flush queued
        | some previous ↦
            if not (str_eq (o.text previous) (o.text e))
              || not (o.synced_version previous == o.synced_version e)
            then schedule_flush queued
            else queued
      ]
