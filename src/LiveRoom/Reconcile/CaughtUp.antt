-- ===== src/LiveRoom/Reconcile/CaughtUp.antt =====
-- After a snapshot that reconcileSnapshot of web/src/live-room.tsx has adopted, no editor that there was of its documents is behind it.
use xbin.Common.{
  ℕ, ◌≤◌, ◌≡◌, sym, ap, subst, ◌∙◌, String, Bool, Bool-cases, true, not, some, List, [], ◌∷◌, leb,
  str_eq, eq_iff, inl, inr, ◌⊎◌, arith,
}
use mathlib.Core.Option.{some-injective}
use xbin.Wire.Types.{RoomDocument}
use xbin.Reconciliation.{Authority}
use xbin.LiveRoom.{Editing, Room, Applied, applied, lookup, normalize_live_documents}
use xbin.LiveRoom.Metadata.{keep_active}
use xbin.LiveRoom.Reconcile.{
  latest_document, settle_accepted, reconcile_editors, merge_documents, adopt_snapshot,
  reconcile_snapshot,
}
use xbin.LiveRoom.Reconcile.Keeps.{turn, turns, reconcile_editors-cons}
use xbin.LiveRoom.Reconcile.Merged.{merge_documents-IsMerged, merge_documents-text}
use xbin.LiveRoom.Reconcile.Turning.{
  Same, Renewed, IsVersioned, reconcile_editor-Same, reconcile_editor-current,
  reconcile_editor-Renewed,
}
use xbin.LiveRoom.Reconcile.Adopted.{
  Adopted, may_reconcile, settle_accepted-editors, reconcile_snapshot-refused,
  reconcile_snapshot-adopted, reconcile_snapshot-stopped, reconcile_snapshot-Adopted,
}

module _ {Editor Changes : Type 0} (o : Editing Editor Changes) (client_id : String) where
  -- The room has an editor of the document `id` that is not behind the snapshot's `d`; and if the editor was behind
  -- it before, the version is now that of `d` and the synchronized text is its content.
  pub record CaughtUp (d : RoomDocument) (id : String) (behind : Bool) (r : Room Editor)
      : Type 0 where
    pub editor : Editor
    pub has_editor : lookup id r.editors ≡ some editor
    pub not_behind : d.revision ≤ o.synced_version editor
    pub new_version : behind ≡ true → o.synced_version editor ≡ d.revision
    pub new_text : behind ≡ true → lookup id r.synced ≡ some d.content

  module _ (law : IsVersioned o client_id) (accepted : List String) (next : List RoomDocument)
      (id : String) (d : RoomDocument) (found : latest_document id next ≡ some d)
      (before : Editor) where
    abbrev behind : Bool
    behind = not (leb d.revision (o.synced_version before))

    abbrev Done : Room Editor → Type 0
    Done r = CaughtUp d id behind r

    Renewed-Done : (r : Room Editor) → Renewed o client_id d id r → Done r
    Renewed-Done r h = record {
      editor = h.editor;
      has_editor = h.has_editor;
      not_behind = omega (arith, h.at_version);
      new_version = λ b. h.at_version;
      new_text = λ b. h.has_text;
    }

    Same-Done : (r s : Room Editor) → Same id r s → Done r → Done s
    Same-Done r s e h = record {
      editor = h.editor;
      has_editor = e.same_held ∙ h.has_editor;
      not_behind = h.not_behind;
      new_version = h.new_version;
      new_text = λ b. e.same_synced ∙ h.new_text b;
    }

    -- A turn of the document's own editor, as the loop has it.
    own-Done :
        (e : Editor) (r : Room Editor)
        → (turn o client_id accepted next id e r).0 ≡ applied
        → (leb d.revision (o.synced_version e) ≡ true → Done r)
        → Done (turn o client_id accepted next id e r).1
    own-Done e r a current = elim (Bool-cases (leb d.revision (o.synced_version e))) [
      | inl k ↦
          subst (λ (p : Applied × Room Editor). Done p.1)
            (sym (reconcile_editor-current o client_id law d id accepted next found e r k))
            (current k)
      | inr k ↦
          Renewed-Done _ (reconcile_editor-Renewed o client_id law d id accepted next found e r k a)
    ]

    -- Before its turn the loop holds the editor as it was.
    abbrev Waits : List (String × Editor) → Room Editor → Type 0
    Waits es r = (lookup id r.editors ≡ some before) × (lookup id es ≡ some before)

    current-Done :
        (r : Room Editor)
        → lookup id r.editors ≡ some before
        → leb d.revision (o.synced_version before) ≡ true
        → Done r
    current-Done r h k = record {
      editor = before;
      has_editor = h;
      not_behind = ground arith;
      new_version = λ b. absurd (ground arith);
      new_text = λ b. absurd (ground arith);
    }

    turn-Done :
        (k : String) (e : Editor) (es : List (String × Editor)) (r : Room Editor)
        → Done r ⊎ Waits ((k, e) ∷ es) r
        → (turn o client_id accepted next k e r).0 ≡ applied
        → Done (turn o client_id accepted next k e r).1
          ⊎ Waits es (turn o client_id accepted next k e r).1
    unfolding lookup
    turn-Done k e es r h a = elim (Bool-cases (str_eq k id)) [
      | inr other ↦
          let same = reconcile_editor-Same o client_id id k other accepted next e r in
          elim h [
            | inl g ↦ inl (Same-Done r _ same g)
            | inr (p, q) ↦ inr (same.same_held ∙ p, ground arith)
          ]
      | inl own ↦
          let name : id ≡ k = sym ((eq_iff k id).0 own) in
          let a' = subst (λ j. (turn o client_id accepted next j e r).0 ≡ applied) (sym name) a in
          let done : Done (turn o client_id accepted next id e r).1 = own-Done e r a' (elim h [
            | inl g ↦ λ c. g
            | inr (p, q) ↦
                let here : e ≡ before = some-injective _ _ (ground arith) in
                λ c. current-Done r p (ap (λ x. leb d.revision (o.synced_version x)) (sym here) ∙ c)
          ]) in
          inl (subst (λ j. Done (turn o client_id accepted next j e r).1) name done)
    ]

    turns-Done :
        (es : List (String × Editor)) (r : Room Editor)
        → Done r ⊎ Waits es r
        → (turns o client_id accepted next es r).0 ≡ applied
        → Done (turns o client_id accepted next es r).1
    unfolding lookup reconcile_editors
    turns-Done [] r (inl g) a = g
    turns-Done [] r (inr (p, q)) a = absurd (cc q)
    turns-Done ((k, e) ∷ es) r h a =
        elim (reconcile_editors-cons o client_id accepted next k e es r) [
          | inr (n, _) ↦ absurd (n a)
          | inl (first, same) ↦
              let later = (turn o client_id accepted next k e r).1 in
              subst (λ (p : Applied × Room Editor). Done p.1) (sym same)
                (turns-Done es later (turn-Done k e es r h first)
                  (ap (λ (p : Applied × Room Editor). p.0) (sym same) ∙ a))
        ]

    adopt_snapshot-maps :
        (n : ℕ) (r : Room Editor)
        → ((adopt_snapshot o client_id next n r).editors
            ≡ (merge_documents o client_id next r).1.editors)
          × ((adopt_snapshot o client_id next n r).synced
              ≡ (merge_documents o client_id next r).1.synced)
    unfolding adopt_snapshot keep_active
    adopt_snapshot-maps n r = (ground arith, ground arith)

    adopt_snapshot-Done :
        (n : ℕ) (r : Room Editor) → Done r → Done (adopt_snapshot o client_id next n r)
    adopt_snapshot-Done n r h =
        let (editors, synced) = adopt_snapshot-maps n r in
        let m = merge_documents-IsMerged o client_id next r in
        record {
          editor = h.editor;
          has_editor = ap (lookup id) editors ∙ m.stay id h.editor h.has_editor;
          not_behind = h.not_behind;
          new_version = h.new_version;
          new_text = λ b.
              ap (lookup id) synced
              ∙ merge_documents-text o client_id next r id h.editor h.has_editor
              ∙ h.new_text b;
        }

  -- A snapshot that was reconciled is adopted, and no editor that the room had of its documents is behind it, if the
  -- editors count versions as CodeMirror's do: the room's documents have the snapshot's ids, names and languages in its
  -- order, each with the text and the version of its editor; the metadata revision is the snapshot's; the active
  -- document is one of them, if there is any; and if an editor with unsent updates was dropped, the room is in
  -- recovery. Further, if the room had an editor of a document of the snapshot, it has one that is at the snapshot's
  -- revision or a later one; and if that editor was behind the snapshot's revision, it is now at that revision and
  -- the synchronized text is the snapshot's.
  pub reconcile_snapshot-CaughtUp :
      (law : IsVersioned o client_id) (documents : List RoomDocument) (metadata_revision : ℕ)
      (requested : Authority) (accepted : List String) (r : Room Editor) (id : String)
      (d : RoomDocument) (before : Editor)
      → latest_document id (normalize_live_documents documents) ≡ some d
      → lookup id r.editors ≡ some before
      → (reconcile_snapshot o client_id documents metadata_revision requested accepted r).0
        ≡ applied
      → Adopted o client_id documents metadata_revision requested accepted r
          (reconcile_snapshot o client_id documents metadata_revision requested accepted r).1
        × CaughtUp d id
            (not (leb d.revision (o.synced_version before)))
            (reconcile_snapshot o client_id documents metadata_revision requested accepted r).1
  reconcile_snapshot-CaughtUp law documents n requested accepted r id d before found had h = (
    reconcile_snapshot-Adopted o client_id documents n requested accepted r h,
    elim (Bool-cases (may_reconcile o client_id documents n requested accepted r)) [
      | inr e ↦
          let refused =
            ap (λ (p : Applied × Room Editor). p.0)
              (reconcile_snapshot-refused o client_id documents n requested accepted r e) in
          absurd (cc (sym refused ∙ h))
      | inl e ↦
          let next = normalize_live_documents documents in
          let a =
            sym (reconcile_snapshot-stopped o client_id documents n requested accepted r e) ∙ h in
          let start = settle_accepted accepted r.tracker r in
          let has =
            ap (lookup id) (settle_accepted-editors o client_id accepted r.tracker r) ∙ had in
          let done =
            turns-Done law accepted next id d found before start.editors start (inr (has, has)) a in
          subst
            (λ (p : Applied × Room Editor).
              CaughtUp d id (not (leb d.revision (o.synced_version before))) p.1)
            (sym (reconcile_snapshot-adopted o client_id documents n requested accepted r e a))
            (adopt_snapshot-Done law accepted next id d found before n _ done)
    ],
  )
