-- ===== src/LiveRoom/Metadata/Converges.antt =====
-- The tabs follow the authority's history, in whatever order its events arrive.
use xbin.Common.{
  ℕ, zero, suc, ◌+◌, ◌≡◌, refl, sym, ap, subst, ◌∙◌, String, Bool-cases, true, false, ◌&&◌, Option,
  Option-cases, none, some, List, [], ◌∷◌, ltb, ◌==◌, length, includes, all, map_all, arith,
  eq_refl, inl, inr, ◌⊎◌, ◌>>=◌,
}
use mathlib.Core.Option.{some-injective}
use xbin.Wire.Types.{RoomDocument}
use xbin.LiveRoom.{Room, Editing, has_document, settle_operation}
use xbin.LiveRoom.Metadata.{
  TabChange, created, updated, deleted, reordered, MetadataEvent, next_documents, first_id,
  change_room, keep_active, end_metadata_operation, record_metadata, apply_metadata_event,
}
use xbin.LiveRoom.Metadata.Abstract.{
  Tab, tabs, find_tab, change_tabs, IsDistinct, length-tabs, created_again, updated_again,
  deleted_again,
}
use xbin.LiveRoom.Metadata.Named.{
  includes-ids, length-ids, found_ids, all-ids, All-IsFound, map_all-found,
}
use xbin.LiveRoom.Metadata.Refines.{IsChange, IsTidy, Agrees, outcome}

reordered_again :
    (order : List String) (ts : List Tab) (ds : List RoomDocument)
    → IsDistinct ds
    → change_tabs (reordered order) ts ≡ some (tabs ds)
    → change_tabs (reordered order) (tabs ds) ≡ some (tabs ds)
unfolding change_tabs
reordered_again order ts ds n h =
    elim (Bool-cases (length order == length ts && all (λ (t : Tab). includes t.id order) ts)) [
      | inr e ↦ absurd (ground arith)
      | inl e ↦
          let found : map_all (λ id. find_tab id ts) order ≡ some (tabs ds) = ground arith in
          let named = found_ids ts order ds found in
          let again =
            ap (map_all (λ id. find_tab id (tabs ds))) (sym named)
            ∙ map_all-found (tabs ds) ds (All-IsFound ds n) in
          let held : all (λ (t : Tab). includes t.id order) (tabs ds) ≡ true =
            all-ids order ds (λ k e'. ap (includes k) (sym named) ∙ includes-ids k ds ∙ e') in
          let count : length order ≡ length (tabs ds) =
            ap length (sym named) ∙ length-ids ds ∙ sym (length-tabs ds) in
          ground arith
    ]

change_again :
    (change : TabChange) (ts : List Tab) (ds : List RoomDocument)
    → IsDistinct ds
    → change_tabs change ts ≡ some (tabs ds)
    → change_tabs change (tabs ds) ≡ some (tabs ds)
change_again (created d) ts ds n h = created_again d ts (tabs ds) h
change_again (updated id name language) ts ds n h = updated_again id name language ts (tabs ds) h
change_again (deleted id) ts ds n h = deleted_again id ts (tabs ds) h
change_again (reordered order) ts ds n h = reordered_again order ts ds n h

module _ {Editor Changes : Type 0} (o : Editing Editor Changes) (client_id : String) (start : ℕ)
    (first : List Tab) (history : ℕ → TabChange) where
  -- The authority's tabs after `k` more revisions than `start`.
  unfoldable pub tabs_after : ℕ → Option (List Tab)
  tabs_after zero = some first
  tabs_after (suc k) = do before ← tabs_after k; change_tabs (history (start + suc k)) before

  -- The room's documents are the authority's tabs at the room's metadata revision, they stand at their
  -- positions, and the active document is one of them, if there is any.
  pub record IsView (r : Room Editor) : Type 0 where
    pub after : ℕ
    pub at_revision : r.metadata_revision ≡ start + after
    pub are_tabs : tabs_after after ≡ some (tabs r.documents)
    pub are_tidy : IsTidy r.documents
    pub has_active : (has_document r.active r.documents ≡ true) ⊎ (r.documents ≡ [])

  same-IsView :
      (r s : Room Editor)
      → s.documents ≡ r.documents
      → s.metadata_revision ≡ r.metadata_revision
      → s.active ≡ r.active
      → IsView r
      → IsView s
  same-IsView r s d m c h = record {
    after = h.after;
    at_revision = m ∙ h.at_revision;
    are_tabs = h.are_tabs ∙ ap (λ ds. some (tabs ds)) (sym d);
    are_tidy = subst IsTidy (sym d) h.are_tidy;
    has_active = ground (arith, d, c, h.has_active);
  }

  -- The event is one of the authority's history.
  abbrev pub IsOfHistory : MetadataEvent → Type 0
  IsOfHistory event = event.change ≡ history event.revision

  pub data Runs (r : Room Editor) : Room Editor → Type 0 where
    starts : Runs r r
    receives :
        {s : Room Editor} (event : MetadataEvent)
        → IsOfHistory event
        → Runs r s
        → Runs r (apply_metadata_event o client_id event s).1

  record_metadata-fields :
      (event : MetadataEvent) (ds : List RoomDocument) (r : Room Editor)
      → ((record_metadata event ds r).documents ≡ ds)
        × ((record_metadata event ds r).metadata_revision ≡ event.revision)
  unfolding record_metadata keep_active end_metadata_operation settle_operation
  record_metadata-fields event ds r = (ground arith, ground arith)

  record_metadata-active :
      (event : MetadataEvent) (ds : List RoomDocument) (r : Room Editor)
      → (has_document (record_metadata event ds r).active (record_metadata event ds r).documents
          ≡ true)
        ⊎ ((record_metadata event ds r).documents ≡ [])
  unfolding record_metadata keep_active end_metadata_operation settle_operation first_id
      has_document
  record_metadata-active event [] r = inr (ground arith)
  record_metadata-active event (d ∷ ds) r = inl (ground (arith, eq_refl d.id))

  settle_operation-IsView :
      (op : String) (r : Room Editor) → IsView r → IsView (settle_operation op r)
  unfolding settle_operation
  settle_operation-IsView op r h = same-IsView r _ refl refl refl h

  module _ (event : MetadataEvent) (r : Room Editor) where
    apply_metadata_event-old :
        ltb event.revision r.metadata_revision ≡ true
        → apply_metadata_event o client_id event r ≡ (true, settle_operation event.operation_id r)
    unfolding apply_metadata_event
    apply_metadata_event-old e = ground arith

    apply_metadata_event-gap :
        ltb event.revision r.metadata_revision ≡ false
        → ltb (r.metadata_revision + 1) event.revision ≡ true
        → apply_metadata_event o client_id event r ≡ (false, r)
    unfolding apply_metadata_event
    apply_metadata_event-gap e f = ground arith

    apply_metadata_event-refused :
        ltb event.revision r.metadata_revision ≡ false
        → ltb (r.metadata_revision + 1) event.revision ≡ false
        → next_documents event.change r.documents ≡ none
        → apply_metadata_event o client_id event r ≡ (false, r)
    unfolding apply_metadata_event
    apply_metadata_event-refused e f n = ground arith

    apply_metadata_event-made :
        (es : List RoomDocument)
        → ltb event.revision r.metadata_revision ≡ false
        → ltb (r.metadata_revision + 1) event.revision ≡ false
        → next_documents event.change r.documents ≡ some es
        → apply_metadata_event o client_id event r ≡ (
          true,
          record_metadata event es (change_room o client_id event.operation_id event.change r),
        )
    unfolding apply_metadata_event
    apply_metadata_event-made es e f n = ground arith

  module _ (changes : (n : ℕ) → IsChange (history n))
      (last : change_tabs (history start) first ≡ some first) where
    -- The change of the revision that the room has leaves the tabs as they are.
    repeated :
        (after : ℕ) (ds : List RoomDocument)
        → IsDistinct ds
        → tabs_after after ≡ some (tabs ds)
        → change_tabs (history (start + after)) (tabs ds) ≡ some (tabs ds)
    unfolding tabs_after
    repeated zero ds n h =
        let same = some-injective _ _ h in
        let here : start ≡ start + 0 = omega arith in
        subst (λ m. change_tabs (history m) (tabs ds) ≡ some (tabs ds)) here
          (subst (λ ts. change_tabs (history start) ts ≡ some ts) same last)
    repeated (suc k) ds n h = elim (Option-cases (tabs_after k)) [
      | inl e ↦ absurd (ground arith)
      | inr (ts, e) ↦ change_again (history (start + suc k)) ts ds n (ground arith)
    ]

    tabs_after-next :
        (after : ℕ) (ds es : List RoomDocument)
        → tabs_after after ≡ some (tabs ds)
        → change_tabs (history (start + suc after)) (tabs ds) ≡ some (tabs es)
        → tabs_after (suc after) ≡ some (tabs es)
    unfolding tabs_after
    tabs_after-next after ds es h e = ground arith

    recorded-IsView :
        (event : MetadataEvent) (r s : Room Editor) (es : List RoomDocument)
        → IsOfHistory event
        → ltb event.revision r.metadata_revision ≡ false
        → ltb (r.metadata_revision + 1) event.revision ≡ false
        → Agrees es event.change r.documents
        → IsView r
        → IsView (record_metadata event es s)
    recorded-IsView event r s es f low high a h =
        let (d, m) = record_metadata-fields event es s in
        let change : change_tabs (history event.revision) (tabs r.documents) ≡ some (tabs es) =
          ap (λ c. change_tabs c (tabs r.documents)) (sym f) ∙ a.are_tabs in
        let at_last = h.at_revision in
        elim (Bool-cases (event.revision == r.metadata_revision)) [
          | inl e ↦
              let here : event.revision ≡ start + h.after = ground arith in
              let again = repeated h.after r.documents h.are_tidy.distinct h.are_tabs in
              let same : some (tabs r.documents) ≡ some (tabs es) =
                sym again
                ∙ ap (λ n. change_tabs (history n) (tabs r.documents)) (sym here)
                ∙ change in
              record {
                after = h.after;
                at_revision = m ∙ here;
                are_tabs = h.are_tabs ∙ same ∙ ap (λ ds. some (tabs ds)) (sym d);
                are_tidy = subst IsTidy (sym d) a.are_tidy;
                has_active = record_metadata-active event es s;
              }
          | inr e ↦
              let next : event.revision ≡ start + suc h.after = ground arith in
              let new = ap (λ n. change_tabs (history n) (tabs r.documents)) (sym next) ∙ change in
              record {
                after = suc h.after;
                at_revision = m ∙ next;
                are_tabs =
                    tabs_after-next h.after r.documents es h.are_tabs new
                    ∙ ap (λ ds. some (tabs ds)) (sym d);
                are_tidy = subst IsTidy (sym d) a.are_tidy;
                has_active = record_metadata-active event es s;
              }
        ]

    apply_metadata_event-IsView :
        (event : MetadataEvent) (r : Room Editor)
        → IsOfHistory event
        → IsView r
        → IsView (apply_metadata_event o client_id event r).1
    apply_metadata_event-IsView event r f h =
        elim (Bool-cases (ltb event.revision r.metadata_revision)) [
          | inl old ↦
              subst (λ p. IsView p.1) (sym (apply_metadata_event-old event r old))
                (settle_operation-IsView event.operation_id r h)
          | inr low ↦ elim (Bool-cases (ltb (r.metadata_revision + 1) event.revision)) [
            | inl gap ↦ subst (λ p. IsView p.1) (sym (apply_metadata_event-gap event r low gap)) h
            | inr high ↦
                elim (outcome event.change r.documents h.are_tidy
                  (subst IsChange (sym f) (changes event.revision))) [
                    | inl (refused, _) ↦
                        subst (λ p. IsView p.1)
                          (sym (apply_metadata_event-refused event r low high refused)) h
                    | inr (es, a) ↦
                        subst (λ p. IsView p.1)
                          (sym (apply_metadata_event-made event r es low high a.are_next))
                          (recorded-IsView event r
                            (change_room o client_id event.operation_id event.change r) es f low
                            high a h)
                  ]
          ]
        ]

  -- Whatever order the authority's events of the tabs arrive in, how often and with what gaps: the room
  -- shows the authority's tabs at the metadata revision that it has.
  pub runs-IsView :
      ((n : ℕ) → IsChange (history n))
      → change_tabs (history start) first ≡ some first
      → {r s : Room Editor} → IsView r
      → Runs r s
      → IsView s
  runs-IsView changes last h starts = h
  runs-IsView changes last h (receives {s} event f rest) =
      apply_metadata_event-IsView changes last event s f (runs-IsView changes last h rest)
