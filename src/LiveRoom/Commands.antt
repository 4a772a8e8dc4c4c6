-- ===== src/LiveRoom/Commands.antt =====
-- The commands of the tabs, which are sent as operations on the room's metadata: sendMetadata, addDocument,
-- submitRename, updateLanguage, deleteDocument, commitTabOrder and moveDocument of
-- web/src/live-room.tsx.
pub mod Sending
mod Tests
use xbin.Common.{
  ℕ, suc, ◌+◌, ◌-◌, String, Bool, true, false, not, ◌&&◌, ◌||◌, Option, none, some, List, [], ◌∷◌,
  leb, ltb, ◌==◌, if◌then◌else◌, str_eq, length, map,
}
use xbin.Json.{Value, string, number, natural, array, object, Fields, end, field, values}
use xbin.Wire.Types.{RoomDocument}
use xbin.Operations.{Operation, metadata, track, clear}
use xbin.LiveRoom.{Room, find_document}
use xbin.LiveRoom.Outbound.{Client, is_joined, text_field, send, mark}
use xbin.RoomUi.Names.{next_live_tab_name}
use xbin.RoomUi.Tabs.{before, after, reorder_live_tab_ids}

-- What a command says to the user.
pub data Said : Type 0 where
  tabs_limited empty_name last_tab : Said

pub ids_in : List RoomDocument → List String
ids_in ds = map (λ (d : RoomDocument). d.id) ds

pub names_in : List RoomDocument → List String
names_in ds = map (λ (d : RoomDocument). d.name) ds

-- `order.every((id, index) => id === current[index])`, of lists of one length
pub same_ids : List String → List String → Bool
same_ids [] [] = true
same_ids (x ∷ xs) (y ∷ ys) = str_eq x y && same_ids xs ys
same_ids _ _ = false

-- `order.indexOf(id)`
pub index_in : String → List String → Option ℕ
index_in id [] = none
index_in id (x ∷ xs) =
    if str_eq x id then some 0 else elim (index_in id xs) [ none ↦ none | some i ↦ some (suc i) ]

pub id_at : ℕ → List String → Option String
id_at n [] = none
id_at n (x ∷ xs) = if n == 0 then some x else id_at (n - 1) xs

pub metadata_message : (client_id operation_id type : String) → ℕ → Fields → Fields
metadata_message client_id operation_id type base_version fields = text_field "type" type (
    text_field "operation_id" operation_id (
      text_field "client_id" client_id
        (field "base_version" (number (natural base_version)) fields)))

-- `operation_id` is the random id that is drawn for the operation, `stringify` is JSON.stringify.
module _ {Editor : Type 0} (ready : Bool) (client_id operation_id : String)
    (stringify : Value → String) where
  -- The operation is tracked and the room busy before it is sent.
  pub start_metadata : String → Fields → Client Editor → Client Editor
  unfolding metadata_message track
  start_metadata type fields c =
      let r = c.room in
      let operation : Operation = record {
        id = operation_id;
        kind = metadata;
        generation = r.generation;
        document_id = none;
        recovery_text = stringify (object fields);
        message = metadata_message client_id operation_id type r.metadata_revision fields;
        sent_generation = none;
        terminal = false;
      } in
      record c {
        room = record r {
          tracker = track operation r.tracker;
          metadata_operation = operation_id;
          metadata_busy = true;
        };
      }

  -- A message that the socket refused takes the operation back.
  pub abandon_metadata : Client Editor → Client Editor
  unfolding clear
  abandon_metadata c = record c {
    room = record c.room {
      metadata_operation = "";
      metadata_busy = false;
      tracker = clear (some operation_id) c.room.tracker;
    };
  }

  -- sendMetadata
  pub send_metadata : String → Fields → Client Editor → Bool × Client Editor
  unfolding start_metadata abandon_metadata metadata_message
  send_metadata type fields c =
      if not (is_joined c.room.connection)
        || c.room.metadata_busy
        || c.room.recovering
        || not c.room.can_edit
      then (false, c)
      else (let (accepted, c') =
            send ready
              (metadata_message client_id operation_id type c.room.metadata_revision fields)
              (start_metadata type fields c) in
          elim accepted [
            | true ↦ (true, mark ready operation_id c'.room.generation c')
            | false ↦ (false, abandon_metadata c')
          ])

  -- addDocument
  pub add_document : ℕ → Option ℕ → Client Editor → Option Said × Client Editor
  unfolding send_metadata
  add_document max_tabs pane c =
      if leb max_tabs (length c.room.documents)
      then (some tabs_limited, c)
      else (let (sent, c') =
            send_metadata "document_create"
              (text_field "name" (next_live_tab_name (names_in c.room.documents))
                (text_field "language" "plaintext" (text_field "content" "" end)))
              c in
          elim sent [
            | true ↦ (none, record c' { room = record c'.room { new_document_pane = pane } })
            | false ↦ (none, c')
          ])

  pub update_document : String → String → String → Client Editor → Client Editor
  unfolding send_metadata
  update_document id name language c =
      (send_metadata "document_update"
        (text_field "document_id" id (text_field "name" name (text_field "language" language end)))
        c).1

  -- submitRename, with the trimmed text of the input; what the input shows is not modelled.
  pub submit_rename : String → Client Editor → Option Said × Client Editor
  unfolding find_document update_document
  submit_rename name c = elim (find_document c.room.active c.room.documents) [
    | none ↦ (none, c)
    | some d ↦
        if str_eq name ""
        then (some empty_name, c)
        else if str_eq name d.name
        then (none, c)
        else (none, update_document c.room.active name d.language c)
  ]

  -- updateLanguage
  pub update_language : String → String → Client Editor → Client Editor
  unfolding find_document update_document
  update_language language id c = elim (find_document id c.room.documents) [
    | none ↦ c
    | some d ↦ update_document id d.name language c
  ]

  -- deleteDocument
  pub delete_document : String → Client Editor → Option Said × Client Editor
  unfolding send_metadata
  delete_document id c =
      if leb (length c.room.documents) 1
      then (some last_tab, c)
      else (none, (send_metadata "document_delete" (text_field "document_id" id end) c).1)

  -- commitTabOrder
  pub commit_tab_order : List String → Client Editor → Client Editor
  unfolding send_metadata same_ids ids_in
  commit_tab_order order c =
      let current = ids_in c.room.documents in
      if not (length order == length current) || same_ids order current
      then c
      else (let (sent, c') =
            send_metadata "document_reorder"
              (field "order" (array (values (map (λ id. string id) order))) end) c in
          elim sent [
            | true ↦ record c' { room = record c'.room { pending_order = some order } }
            | false ↦ c'
          ])

  -- moveDocument, one place to the left (`true`) or to the right
  pub move_document : String → Bool → Client Editor → Client Editor
  unfolding commit_tab_order index_in id_at ids_in
  move_document id left c =
      let order = ids_in c.room.documents in
      elim (index_in id order) [
        | none ↦ c
        | some index ↦
            if left && index == 0
            then c
            else elim (id_at (if left then index - 1 else index + 1) order) [
              | none ↦ c
              | some target ↦
                  commit_tab_order
                    (reorder_live_tab_ids order id target (if left then before else after)) c
            ]
      ]
