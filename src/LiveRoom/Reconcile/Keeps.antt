-- ===== src/LiveRoom/Reconcile/Keeps.antt =====
-- What the loops of reconcileSnapshot in web/src/live-room.tsx leave as it is.
use xbin.Common.{
  ◌≡◌, ◌≢◌, refl, sym, subst, ◌∙◌, String, true, Option-split, none, some, List, [], ◌∷◌, if-both,
  arith, inl, inr, ◌⊎◌,
}
use xbin.Wire.Types.{RoomDocument}
use xbin.Operations.{Operation}
use xbin.LiveRoom.{
  Editing, Room, Applied, applied, gap, thrown, settle_operation, set_connection_state,
  get_editor_state,
}
use xbin.LiveRoom.Metadata.{end_metadata_operation}
use xbin.LiveRoom.Reconcile.{
  latest_document, accepted_operation, settle_accepted, remove_editor, drop_editor, place_editor,
  replace_editor, advance_editor, reconcile_editor, reconcile_editors,
}
use xbin.LiveRoom.Modes.{is_held}

pub Applied-cases : (a : Applied) → (a ≡ applied) ⊎ ((a ≡ gap) ⊎ (a ≡ thrown))
Applied-cases applied = inl refl
Applied-cases gap = inr (inl refl)
Applied-cases thrown = inr (inr refl)

-- What the loops leave as it is.
pub record Keeps {Editor : Type 0} (r s : Room Editor) : Type 0 where
  pub same_revision : s.metadata_revision ≡ r.metadata_revision
  pub same_documents : s.documents ≡ r.documents
  pub stays_recovering : r.recovering ≡ true → s.recovering ≡ true
  pub stays_held : is_held r ≡ true → is_held s ≡ true
  pub same_resyncing : s.resyncing ≡ r.resyncing

pub Keeps-self : {Editor : Type 0} (r : Room Editor) → Keeps r r
Keeps-self r = record {
  same_revision = refl;
  same_documents = refl;
  stays_recovering = λ h. h;
  stays_held = λ h. h;
  same_resyncing = refl;
}

pub Keeps-twice : {Editor : Type 0} {r s t : Room Editor} → Keeps r s → Keeps s t → Keeps r t
Keeps-twice h k = record {
  same_revision = k.same_revision ∙ h.same_revision;
  same_documents = k.same_documents ∙ h.same_documents;
  stays_recovering = λ e. k.stays_recovering (h.stays_recovering e);
  stays_held = λ e. k.stays_held (h.stays_held e);
  same_resyncing = k.same_resyncing ∙ h.same_resyncing;
}

end_metadata_operation-Keeps :
    {Editor : Type 0} (id : String) (r : Room Editor)
    → Keeps r (end_metadata_operation id (settle_operation id r))
unfolding end_metadata_operation settle_operation is_held
end_metadata_operation-Keeps id r = record {
  same_revision = ground arith;
  same_documents = ground arith;
  stays_recovering = λ h. ground arith;
  stays_held = λ h. ground arith;
  same_resyncing = ground arith;
}

pub settle_accepted-Keeps :
    {Editor : Type 0} (accepted : List String) (ops : List Operation) (r : Room Editor)
    → Keeps r (settle_accepted accepted ops r)
unfolding settle_accepted
settle_accepted-Keeps accepted [] r = Keeps-self r
settle_accepted-Keeps accepted (op ∷ ops) r =
    Keeps-twice
      (if-both (Keeps r) {x = end_metadata_operation op.id (settle_operation op.id r)} {y = r}
        (end_metadata_operation-Keeps op.id r) (Keeps-self r) _)
      (settle_accepted-Keeps accepted ops _)

module _ {Editor Changes : Type 0} (o : Editing Editor Changes) (client_id : String) where
  remove_editor-Keeps :
      (id : String) (e : Editor) (r : Room Editor) → Keeps r (remove_editor o client_id id e r)
  unfolding remove_editor drop_editor set_connection_state is_held
  remove_editor-Keeps id e r = record {
    same_revision = ground arith;
    same_documents = ground arith;
    stays_recovering = λ h. ground arith;
    stays_held = λ h. ground arith;
    same_resyncing = ground arith;
  }

  replace_editor-Keeps :
      (next : RoomDocument) (id : String) (e : Editor) (op : Operation) (r : Room Editor)
      → Keeps r (replace_editor o client_id next id e op r).1
  unfolding replace_editor place_editor settle_operation is_held
  replace_editor-Keeps next id e op r = record {
    same_revision = ground arith;
    same_documents = ground arith;
    stays_recovering = λ h. ground arith;
    stays_held = λ h. ground arith;
    same_resyncing = ground arith;
  }

  advance_editor-Keeps :
      (next : RoomDocument) (id : String) (e : Editor) (r : Room Editor)
      → Keeps r (advance_editor o client_id next id e r).1
  unfolding advance_editor place_editor is_held
  advance_editor-Keeps next id e r = record {
    same_revision = ground arith;
    same_documents = ground arith;
    stays_recovering = λ h. ground arith;
    stays_held = λ h. ground arith;
    same_resyncing = ground arith;
  }

  reconcile_editor-Keeps :
      (accepted : List String) (next : List RoomDocument) (id : String) (e : Editor)
      (r : Room Editor)
      → Keeps r (reconcile_editor o client_id accepted next id e r).1
  unfolding reconcile_editor
  reconcile_editor-Keeps accepted next id e r =
      Option-split (λ (p : Applied × Room Editor). Keeps r p.1) (latest_document id next)
        (λ n. remove_editor-Keeps id e r)
        (λ d found.
          if-both (λ (p : Applied × Room Editor). Keeps r p.1) {x = (applied, r)}
            {y = elim (accepted_operation accepted id r.tracker) [
              | some op ↦ replace_editor o client_id d id e op r
              | none ↦ advance_editor o client_id d id e r
            ]}
            (Keeps-self r)
            (Option-split (λ (p : Applied × Room Editor). Keeps r p.1)
              (accepted_operation accepted id r.tracker) (λ n. advance_editor-Keeps d id e r)
              (λ op k. replace_editor-Keeps d id e op r))
            _)

  module _ (accepted : List String) (next : List RoomDocument) where
    abbrev pub turn : String → Editor → Room Editor → Applied × Room Editor
    turn id e r = reconcile_editor o client_id accepted next id e r

    abbrev pub turns : List (String × Editor) → Room Editor → Applied × Room Editor
    turns es r = reconcile_editors o client_id accepted next es r

    pub reconcile_editors-cons :
        (id : String) (e : Editor) (es : List (String × Editor)) (r : Room Editor)
        → (((turn id e r).0 ≡ applied) × (turns ((id, e) ∷ es) r ≡ turns es (turn id e r).1))
          ⊎ (((turns ((id, e) ∷ es) r).0 ≢ applied)
              × ((turns ((id, e) ∷ es) r).1 ≡ (turn id e r).1))
    unfolding reconcile_editors
    reconcile_editors-cons id e es r = elim (Applied-cases (turn id e r).0) [
      | inl h ↦ inl (h, ground arith)
      | inr (inl h) ↦ inr (λ k. ground arith, ground arith)
      | inr (inr h) ↦ inr (λ k. ground arith, ground arith)
    ]

    pub reconcile_editors-Keeps :
        (es : List (String × Editor)) (r : Room Editor) → Keeps r (turns es r).1
    unfolding reconcile_editors
    reconcile_editors-Keeps [] r = Keeps-self r
    reconcile_editors-Keeps ((id, e) ∷ es) r =
        let first = reconcile_editor-Keeps accepted next id e r in
        elim (reconcile_editors-cons id e es r) [
          | inl (_, same) ↦ Keeps-twice first (
              subst (λ (p : Applied × Room Editor). Keeps (turn id e r).1 p.1) (sym same)
                (reconcile_editors-Keeps es (turn id e r).1))
          | inr (_, same) ↦ subst (Keeps r) (sym same) first
        ]

  pub get_editor_state-Keeps :
      (document : RoomDocument) (r : Room Editor)
      → Keeps r (get_editor_state o client_id document r).1
  unfolding get_editor_state is_held
  get_editor_state-Keeps document r = record {
    same_revision = ground arith;
    same_documents = ground arith;
    stays_recovering = λ h. ground arith;
    stays_held = λ h. ground arith;
    same_resyncing = ground arith;
  }
