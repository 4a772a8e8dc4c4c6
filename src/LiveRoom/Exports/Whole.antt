-- ===== src/LiveRoom/Exports/Whole.antt =====
-- The text that a recovery shows holds the text of every tab.
use xbin.Common.{
  ℕ, ◌≡◌, refl, sym, ap, ◌∙◌, String, some, List, [], ◌∷◌, if◌then◌else◌, Option-cases, inl, inr,
  subst, All, map, str_append, length, ltb, arith,
}
use text.Mathlib.TextLemmas.{append_assoc, append-nil, nil-append}
use xbin.Wire.Types.{RoomDocument}
use xbin.LiveRoom.{Editing, Room, find_document}
use xbin.LiveRoom.Exports.{
  Mode, current, every, section_of, join_sections, active_document, live_paste_export,
  with_edited_text, export_paste, recovery_text,
}

-- A text stands in another one.
pub record Within (part whole : String) : Type 0 where
  pub before : String
  pub after : String
  pub parts : whole ≡ str_append before (str_append part after)

-- Every document's content stands in a text.
abbrev pub AllWithin : List RoomDocument → String → Type 0
AllWithin ds whole = All (λ (d : RoomDocument). Within d.content whole) ds

Within-before : (part p whole : String) → Within part whole → Within part (str_append p whole)
Within-before part p whole w = record {
  before = str_append p w.before;
  after = w.after;
  parts =
      ap (λ (t : String). str_append p t) w.parts
      ∙ sym (append_assoc p w.before (str_append part w.after));
}

Within-after : (part whole p : String) → Within part whole → Within part (str_append whole p)
Within-after part whole p w = record {
  before = w.before;
  after = str_append w.after p;
  parts =
      ap (λ (t : String). str_append t p) w.parts
      ∙ append_assoc w.before (str_append part w.after) p
      ∙ ap (λ (t : String). str_append w.before t) (append_assoc part w.after p);
}

Within-self : (part : String) → Within part part
Within-self part = record {
  before = "";
  after = "";
  parts = sym (nil-append (str_append part "") ∙ append-nil part);
}

section_of-Within : (d : RoomDocument) → Within d.content (section_of d)
unfolding section_of
section_of-Within d = Within-before d.content "--- " _ (
    Within-before d.content d.name _
      (Within-before d.content " ---\n\n" d.content (Within-self d.content)))

all_before :
    (ds : List RoomDocument) (p whole : String)
    → AllWithin ds whole
    → AllWithin ds (str_append p whole)
all_before [] p whole h = tt
all_before (d ∷ ds) p whole h = (Within-before d.content p whole h.0, all_before ds p whole h.1)

join_sections-AllWithin : (ds : List RoomDocument) → AllWithin ds (join_sections ds)
unfolding join_sections
join_sections-AllWithin [] = tt
join_sections-AllWithin (d ∷ []) = (section_of-Within d, tt)
join_sections-AllWithin (d ∷ e ∷ ds) =
    let rest = join_sections (e ∷ ds) in
    (
      Within-after d.content (section_of d) (str_append "\n\n" rest) (section_of-Within d),
      all_before (e ∷ ds) (section_of d) (str_append "\n\n" rest)
          (all_before (e ∷ ds) "\n\n" rest (join_sections-AllWithin (e ∷ ds))),
    )

one_document : (active : String) (d : RoomDocument) → active_document active (d ∷ []) ≡ some d
unfolding active_document find_document
one_document active d = ground arith

is_active :
    (active : String) (d : RoomDocument) (ds : List RoomDocument)
    → (x : RoomDocument) × (active_document active (d ∷ ds) ≡ some x)
unfolding active_document
is_active active d ds = elim (Option-cases (find_document active (d ∷ ds))) [
  | inl e ↦ (d, ground arith)
  | inr (x, e) ↦ (x, ground arith)
]

one_content :
    (d : RoomDocument) (active : String)
    → (live_paste_export (d ∷ []) active current).content ≡ d.content
unfolding live_paste_export
one_content d active = ground (arith, one_document active d)

all_contents :
    (d : RoomDocument) (ds : List RoomDocument) (active : String)
    → (live_paste_export (d ∷ ds) active every).content ≡ join_sections (d ∷ ds)
unfolding live_paste_export
all_contents d ds active = let (x, e) = is_active active d ds in ground arith

-- The export of all tabs, or of the only one.
live_paste_export-AllWithin :
    (ds : List RoomDocument) (active : String)
    → AllWithin ds
        (live_paste_export ds active (if ltb 1 (length ds) then every else current)).content
live_paste_export-AllWithin [] active = tt
live_paste_export-AllWithin (d ∷ []) active =
    subst (AllWithin (d ∷ [])) (sym (one_content d active)) (Within-self d.content, tt)
live_paste_export-AllWithin (d ∷ e ∷ ds) active =
    let many : (if ltb 1 (length (d ∷ e ∷ ds)) then every else current) ≡ every = ground arith in
    subst (AllWithin (d ∷ e ∷ ds))
      (sym (
        ap (λ (m : Mode). (live_paste_export (d ∷ e ∷ ds) active m).content) many
        ∙ all_contents d (e ∷ ds) active))
      (join_sections-AllWithin (d ∷ e ∷ ds))

module _ {Editor Changes : Type 0} (o : Editing Editor Changes) where
  length-edited :
      (r : Room Editor) (ds : List RoomDocument)
      → length (map (with_edited_text o r) ds) ≡ length ds
  length-edited r [] = refl
  length-edited r (d ∷ ds) = ground (arith, length-edited r ds)

  pub recovery_text-AllWithin :
      (r : Room Editor) → AllWithin (map (with_edited_text o r) r.documents) (recovery_text o r)
  unfolding recovery_text export_paste
  recovery_text-AllWithin r =
      let ds = map (with_edited_text o r) r.documents in
      subst
        (λ (n : ℕ).
          AllWithin ds (live_paste_export ds r.active (if ltb 1 n then every else current)).content)
        (length-edited r r.documents) (live_paste_export-AllWithin ds r.active)
