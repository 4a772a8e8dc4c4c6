-- ===== src/LiveRoom/Metadata.antt =====
-- The events of the room's tabs: applyMetadataEvent and assignPaneDocument of web/src/live-room.tsx.
pub mod Abstract
pub mod Modes
pub mod Placing
pub mod Sorting
pub mod Named
pub mod Refines
pub mod Converges
use xbin.Common.{
  ℕ, zero, suc, ◌+◌, String, Bool, true, false, not, ◌&&◌, ◌||◌, Option, none, some, List, [], ◌∷◌,
  ◌++◌, ltb, leb, ◌==◌, if◌then◌else◌, str_eq, length, includes, is_some, keep,
}
use xbin.Wire.Types.{RoomDocument}
use xbin.LiveRoom.{
  Editing, Room, lookup, insert, delete, has_document, settle_operation, get_editor_state,
  sort_documents,
}

-- What an event of the tabs changes.
pub data TabChange : Type 0 where
  created : RoomDocument → TabChange
  updated : (id name language : String) → TabChange
  deleted : String → TabChange
  reordered : List String → TabChange

pub record MetadataEvent : Type 0 where
  pub operation_id : String
  pub revision : ℕ
  pub change : TabChange

-- `documents.map((document, position) => ({ ...document, position }))`, from a position on
pub number_from : ℕ → List RoomDocument → List RoomDocument
number_from n [] = []
number_from n (d ∷ ds) = record d { position = n } ∷ number_from (suc n) ds

-- `new Map(order.map((id, index) => [id, index])).get(id)`: of two entries the later counts.
pub position_in : ℕ → String → List String → Option ℕ
position_in n id [] = none
position_in n id (x ∷ xs) = elim (position_in (suc n) id xs) [
  | some p ↦ some p
  | none ↦ if str_eq x id then some n else none
]

-- The size of that map.
pub map_size : List String → ℕ
map_size [] = 0
map_size (x ∷ xs) = if includes x xs then map_size xs else suc (map_size xs)

-- `documents.map` with `position.get(document.id)!`; `none` if a document has no position.
pub place_all : List String → List RoomDocument → Option (List RoomDocument)
unfolding position_in
place_all order [] = some []
place_all order (d ∷ ds) = elim (position_in 0 d.id order) [
  | none ↦ none
  | some p ↦ elim (place_all order ds) [
    | none ↦ none
    | some placed ↦ some (record d { position = p } ∷ placed)
  ]
]

pub rename : String → String → String → List RoomDocument → List RoomDocument
rename id name language [] = []
rename id name language (d ∷ ds) =
    let rest = rename id name language ds in
    if str_eq d.id id then record d { name = name; language = language } ∷ rest else d ∷ rest

-- `nextDocuments` after the `switch`; `none` is the `return false` of an order that does not fit.
pub next_documents : TabChange → List RoomDocument → Option (List RoomDocument)
unfolding number_from map_size place_all rename has_document sort_documents
next_documents (created document) ds = some (
    if has_document document.id ds then ds else ds ++ record document { position = length ds } ∷ [])
next_documents (updated id name language) ds = some (rename id name language ds)
next_documents (deleted id) ds =
    some (number_from 0 (keep (λ (d : RoomDocument). not (str_eq d.id id)) ds))
next_documents (reordered order) ds =
    if not (map_size order == length ds)
    then none
    else elim (place_all order ds) [ none ↦ none | some placed ↦ some (sort_documents placed) ]

-- `next[index] = id`, for a pane that there is
pub set_pane : ℕ → String → List String → List String
set_pane index id [] = []
set_pane zero id (x ∷ xs) = id ∷ xs
set_pane (suc index) id (x ∷ xs) = x ∷ set_pane index id xs

-- `next[index]`
pub pane_at : ℕ → List String → String
pane_at index [] = ""
pane_at zero (x ∷ xs) = x
pane_at (suc index) (x ∷ xs) = pane_at index xs

-- `next.indexOf(id)`
pub pane_of : String → List String → Option ℕ
pane_of id [] = none
pane_of id (x ∷ xs) =
    if str_eq x id then some 0 else elim (pane_of id xs) [ none ↦ none | some i ↦ some (suc i) ]

-- assignPaneDocument: the pane that shows the document gets the one that the pane `index` showed.
pub assign_pane_document : ℕ → String → List String → List String
unfolding set_pane pane_at pane_of
assign_pane_document index id panes = elim (pane_of id panes) [
  | none ↦ set_pane index id panes
  | some other ↦ set_pane index id (set_pane other (pane_at index panes) panes)
]

-- `nextDocuments[0]?.id ?? ""`
unfoldable pub first_id : List RoomDocument → String
first_id [] = ""
first_id (d ∷ ds) = d.id

module _ {Editor : Type 0} where
  unfoldable pub keep_active : Room Editor → Room Editor
  unfolding has_document first_id
  keep_active r =
      if has_document r.active r.documents then r else record r { active = first_id r.documents }

  unfoldable pub end_metadata_operation : String → Room Editor → Room Editor
  end_metadata_operation operation_id r =
      if str_eq operation_id r.metadata_operation
      then record r { metadata_operation = ""; metadata_busy = false }
      else r

  -- What follows the `switch`.
  pub record_metadata : MetadataEvent → List RoomDocument → Room Editor → Room Editor
  unfolding keep_active end_metadata_operation settle_operation
  record_metadata event documents r = settle_operation event.operation_id (
      end_metadata_operation event.operation_id
        (keep_active (record r { documents = documents; metadata_revision = event.revision })))

module _ {Editor Changes : Type 0} (o : Editing Editor Changes) (client_id : String) where
  -- The pane that asked for a document shows it, and it becomes the active one.
  pub show_created : String → String → Room Editor → Room Editor
  unfolding assign_pane_document
  show_created operation_id id r = elim r.new_document_pane [
    | none ↦ r
    | some pane ↦
        if str_eq operation_id r.metadata_operation
        then record r {
          pane_ids = assign_pane_document pane id r.pane_ids;
          new_document_pane = none;
          active = id;
        }
        else r
  ]

  -- A created document that is new gets an editor.
  pub open_created : String → RoomDocument → Room Editor → Room Editor
  unfolding show_created has_document get_editor_state
  open_created operation_id document r =
      let opened =
        if has_document document.id r.documents
        then r
        else (get_editor_state o client_id document r).1 in
      record (show_created operation_id document.id opened) { pending_order = none }

  -- What the `switch` does beside `nextDocuments`.
  pub change_room : String → TabChange → Room Editor → Room Editor
  unfolding open_created delete
  change_room operation_id (created document) r = open_created operation_id document r
  change_room operation_id (updated id name language) r = r
  change_room operation_id (deleted id) r = record r {
    editors = delete id r.editors;
    synced = delete id r.synced;
    pending_order = none;
  }
  change_room operation_id (reordered order) r = record r { pending_order = none }

  -- applyMetadataEvent
  pub apply_metadata_event : MetadataEvent → Room Editor → Bool × Room Editor
  unfolding settle_operation next_documents change_room record_metadata
  apply_metadata_event event r =
      if ltb event.revision r.metadata_revision
      then (true, settle_operation event.operation_id r)
      else if ltb (r.metadata_revision + 1) event.revision
      then (false, r)
      else elim (next_documents event.change r.documents) [
        | none ↦ (false, r)
        | some documents ↦
            (true, record_metadata event documents (change_room event.operation_id event.change r))
      ]
