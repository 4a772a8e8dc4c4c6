-- ===== src/LiveRoom/Exports.antt =====
-- The texts of a room as one text: livePasteExport of web/src/live-collab.ts, with recoveryText and the draft of
-- exportPaste of web/src/live-room.tsx.
pub mod Whole
use xbin.Common.{
  ℕ, suc, String, Bool, true, false, Option, none, some, List, [], ◌∷◌, if◌then◌else◌, ltb, length,
  str_append, map,
}
use xbin.Wire.Types.{RoomDocument}
use xbin.LiveRoom.{Editing, Room, lookup, find_document}

-- The result of livePasteExport.
pub record Draft : Type 0 where
  pub title : String
  pub language : String
  pub content : String

pub data Mode : Type 0 where
  current every : Mode

-- `--- ${document.name} ---\n\n${document.content}`
pub section_of : RoomDocument → String
section_of d = str_append "--- " (str_append d.name (str_append " ---\n\n" d.content))

-- `join("\n\n")`
pub join_sections : List RoomDocument → String
unfolding section_of
join_sections [] = ""
join_sections (d ∷ []) = section_of d
join_sections (d ∷ e ∷ ds) = str_append (section_of d) (str_append "\n\n" (join_sections (e ∷ ds)))

-- The active document, else the first.
pub active_document : String → List RoomDocument → Option RoomDocument
unfolding find_document
active_document active [] = none
active_document active (d ∷ ds) = elim (find_document active (d ∷ ds)) [
  | some found ↦ some found
  | none ↦ some d
]

-- livePasteExport
pub live_paste_export : List RoomDocument → String → Mode → Draft
unfolding active_document join_sections
live_paste_export ds active mode = elim (active_document active ds) [
  | none ↦ record { title = ""; language = "plaintext"; content = "" }
  | some d ↦ elim mode [
    | current ↦ record { title = d.name; language = d.language; content = d.content }
    | every ↦ record { title = "Live room"; language = "plaintext"; content = join_sections ds }
  ]
]

module _ {Editor Changes : Type 0} (o : Editing Editor Changes) where
  -- A document with the text of its editor, if it has one.
  pub with_edited_text : Room Editor → RoomDocument → RoomDocument
  with_edited_text r d = elim (lookup d.id r.editors) [
    | none ↦ d
    | some e ↦ record d { content = o.text e }
  ]

  -- The draft that exportPaste hands on.
  pub export_paste : Mode → Room Editor → Draft
  unfolding with_edited_text live_paste_export
  export_paste mode r = live_paste_export (map (with_edited_text r) r.documents) r.active mode

  -- recoveryText
  pub recovery_text : Room Editor → String
  unfolding export_paste
  recovery_text r = (export_paste (if ltb 1 (length r.documents) then every else current) r).content
