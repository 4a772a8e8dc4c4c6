-- ===== src/LiveRoom/Metadata/Refines.antt =====
-- The events of the tabs do to the room what they mean for the abstract list of tabs.
use xbin.Common.{
  ◌≡◌, refl, sym, ap, subst, ◌∙◌, String, Bool-cases, none, some, List, [], ◌∷◌, ◌++◌, ◌==◌, length,
  map_all, All, arith, inl, inr, ◌⊎◌,
}
use xbin.Wire.Types.{RoomDocument}
use xbin.LiveRoom.{has_document, sort_documents}
use xbin.LiveRoom.Metadata.{
  TabChange, created, updated, deleted, reordered, number_from, rename, next_documents,
}
use xbin.LiveRoom.Metadata.Abstract.{
  tabs, find_tab, change_tabs, IsNumbered, IsDistinct, has_tab-tabs, length-tabs, tabs-append,
  append-IsNumbered, append-IsDistinct, tabs-rename, rename-IsNumbered, rename-IsDistinct, others,
  tabs-others, others-IsDistinct, number_from-IsNumbered, number_from-IsDistinct,
}
use xbin.LiveRoom.Metadata.Placing.{IsOrder, map_size-length, Placing, place_all-cases, IsPlaced}
use xbin.LiveRoom.Metadata.Sorting.{
  ascending-IsNumbered, sort_documents-All, length-sort_documents, sort_documents-IsAscending,
}
use xbin.LiveRoom.Metadata.Named.{
  ids, numbered_ids, IsFound, All-IsFound, map_all-found, same_tabs-IsDistinct, ids-IsDistinct,
}

-- An order of the authority names no tab twice.
unfoldable pub IsChange : TabChange → Type 0
IsChange (reordered order) = IsOrder order
IsChange _ = Unit

-- The documents stand at their positions, and none has the id of another.
pub record IsTidy (ds : List RoomDocument) : Type 0 where
  pub numbered : IsNumbered 0 ds
  pub distinct : IsDistinct ds

-- What the tabs and the documents come to agrees: both refuse, or the documents' tabs are the new tabs.
pub record Agrees (es : List RoomDocument) (change : TabChange) (ds : List RoomDocument)
    : Type 0 where
  pub are_next : next_documents change ds ≡ some es
  pub are_tabs : change_tabs change (tabs ds) ≡ some (tabs es)
  pub are_tidy : IsTidy es

abbrev pub Outcome : TabChange → List RoomDocument → Type 0
Outcome change ds =
    ((next_documents change ds ≡ none) × (change_tabs change (tabs ds) ≡ none))
    ⊎ ((es : List RoomDocument) × Agrees es change ds)

created-Outcome : (d : RoomDocument) (ds : List RoomDocument) → IsTidy ds → Outcome (created d) ds
unfolding next_documents change_tabs
created-Outcome d ds h = elim (Bool-cases (has_document d.id ds)) [
  | inl e ↦
      let there = has_tab-tabs d.id ds ∙ e in
      inr (ds, record { are_next = ground arith; are_tabs = ground arith; are_tidy = h })
  | inr e ↦
      let new : RoomDocument = record d { position = length ds } in
      let there = has_tab-tabs d.id ds ∙ e in
      let joined = tabs-append new ds in
      inr (
        ds ++ new ∷ [],
        record {
          are_next = ground arith;
          are_tabs = ground arith;
          are_tidy = record {
            numbered = append-IsNumbered new 0 ds (omega arith) h.numbered;
            distinct = append-IsDistinct new ds e h.distinct;
          };
        },
      )
]

updated-Outcome :
    (id name language : String) (ds : List RoomDocument)
    → IsTidy ds
    → Outcome (updated id name language) ds
unfolding next_documents change_tabs
updated-Outcome id name language ds h = inr (
  rename id name language ds,
  record {
    are_next = refl;
    are_tabs = ap some (sym (tabs-rename id name language ds));
    are_tidy = record {
      numbered = rename-IsNumbered id name language 0 ds h.numbered;
      distinct = rename-IsDistinct id name language ds h.distinct;
    };
  },
)

deleted-Outcome : (id : String) (ds : List RoomDocument) → IsTidy ds → Outcome (deleted id) ds
unfolding next_documents change_tabs
deleted-Outcome id ds h = inr (
  number_from 0 (others id ds),
  record {
    are_next = refl;
    are_tabs = ap some (sym (tabs-others id 0 ds));
    are_tidy = record {
      numbered = number_from-IsNumbered 0 (others id ds);
      distinct = number_from-IsDistinct 0 (others id ds) (others-IsDistinct id ds h.distinct);
    };
  },
)

module _ (order : List String) (ds : List RoomDocument) (h : IsTidy ds) (o : IsOrder order) where
  module _ (placed : List RoomDocument) (p : Placing order ds placed)
      (e : length order ≡ length ds) where
    sorted-length : length (sort_documents placed) ≡ length order
    sorted-length =
        length-sort_documents placed
        ∙ sym (length-tabs placed)
        ∙ ap length p.same_tabs
        ∙ length-tabs ds
        ∙ sym e

    sorted-IsNumbered : IsNumbered 0 (sort_documents placed)
    sorted-IsNumbered =
        ascending-IsNumbered 0 (length order) (sort_documents placed) (omega (arith, sorted-length))
          (sort_documents-IsAscending order placed
            (same_tabs-IsDistinct ds placed (sym p.same_tabs) h.distinct) p.are_placed)

    sorted-ids : ids (sort_documents placed) ≡ order
    sorted-ids =
        numbered_ids order 0 (sort_documents placed) sorted-IsNumbered
          (sort_documents-All (IsPlaced order) placed p.are_placed) (omega (arith, sorted-length))

    sorted-tabs : map_all (λ id. find_tab id (tabs ds)) order ≡ some (tabs (sort_documents placed))
    sorted-tabs =
        let found : All (IsFound (tabs placed)) placed =
          All-IsFound placed (same_tabs-IsDistinct ds placed (sym p.same_tabs) h.distinct) in
        let found' = subst (λ ts. All (IsFound ts) placed) p.same_tabs found in
        ap (map_all (λ id. find_tab id (tabs ds))) (sym sorted-ids)
        ∙ map_all-found (tabs ds) (sort_documents placed)
            (sort_documents-All (IsFound (tabs ds)) placed found')

  reordered-Outcome : Outcome (reordered order) ds
  unfolding next_documents change_tabs
  reordered-Outcome = elim (Bool-cases (length order == length ds)) [
    | inr e ↦
        let size = map_size-length order o in
        let count = length-tabs ds in inl (ground arith, ground arith)
    | inl e ↦
        let size = map_size-length order o in
        let count = length-tabs ds in
        elim (place_all-cases order ds) [
          | inl (a, b) ↦ inl (ground arith, ground arith)
          | inr (placed, a, b, p) ↦
              let same : length order ≡ length ds = ground arith in
              let new = sorted-tabs placed p same in
              inr (
                sort_documents placed,
                record {
                  are_next = ground arith;
                  are_tabs = ground arith;
                  are_tidy = record {
                    numbered = sorted-IsNumbered placed p same;
                    distinct =
                        ids-IsDistinct (sort_documents placed) order (sorted-ids placed p same) o;
                  };
                },
              )
        ]
  ]

pub outcome :
    (change : TabChange) (ds : List RoomDocument) → IsTidy ds → IsChange change → Outcome change ds
unfolding IsChange
outcome (created d) ds h o = created-Outcome d ds h
outcome (updated id name language) ds h o = updated-Outcome id name language ds h
outcome (deleted id) ds h o = deleted-Outcome id ds h
outcome (reordered order) ds h o = reordered-Outcome order ds h o
