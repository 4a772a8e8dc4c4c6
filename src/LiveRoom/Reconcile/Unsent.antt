-- ===== src/LiveRoom/Reconcile/Unsent.antt =====
-- An editor with unsent updates that reconcileSnapshot of web/src/live-room.tsx drops.
use xbin.Common.{◌≡◌, sym, ap, ◌∙◌, String, true, none, List, [], ◌∷◌, arith, inl, inr, ◌⊎◌}
use xbin.Wire.Types.{RoomDocument}
use xbin.LiveRoom.{Editing, Update, Room, Applied, applied, set_connection_state}
use xbin.LiveRoom.Reconcile.{
  latest_document, pending_of, remove_editor, drop_editor, reconcile_editor,
}
use xbin.LiveRoom.Reconcile.Keeps.{turn, turns, reconcile_editors-cons, reconcile_editors-Keeps}

-- The entry is one of the map's.
pub IsIn : {A : Type 0} → A → List A → Type 0
IsIn a [] = ⊥
IsIn a (x ∷ xs) = (x ≡ a) ⊎ IsIn a xs

module _ {Editor Changes : Type 0} (o : Editing Editor Changes) (client_id : String) where
  module _ (accepted : List String) (next : List RoomDocument) where
    -- An editor of a document that the snapshot has no more, with an update that was not sent.
    pub record IsUnsent (entry : String × Editor) : Type 0 where
      pub is_gone : latest_document entry.0 next ≡ none
      pub first_update : Update Changes
      pub later_updates : List (Update Changes)
      pub are_unsent : pending_of o client_id entry.1 ≡ first_update ∷ later_updates

    remove_editor-recovers :
        (id : String) (e : Editor) (r : Room Editor) (u : Update Changes)
        (us : List (Update Changes))
        → pending_of o client_id e ≡ u ∷ us
        → (remove_editor o client_id id e r).recovering ≡ true
    unfolding remove_editor drop_editor set_connection_state
    remove_editor-recovers id e r u us h = ground arith

    turn-gone :
        (id : String) (e : Editor) (r : Room Editor)
        → latest_document id next ≡ none
        → turn o client_id accepted next id e r ≡ (applied, remove_editor o client_id id e r)
    unfolding reconcile_editor
    turn-gone id e r h = ground arith

    -- Such an editor takes the room into recovery.
    pub turns-unsent :
        (es : List (String × Editor)) (r : Room Editor) (entry : String × Editor)
        → IsUnsent entry
        → IsIn entry es
        → (turns o client_id accepted next es r).0 ≡ applied
        → (turns o client_id accepted next es r).1.recovering ≡ true
    unfolding IsIn
    turns-unsent [] r entry h m a = absurd m
    turns-unsent ((id, e) ∷ es) r entry h m a =
        elim (reconcile_editors-cons o client_id accepted next id e es r) [
          | inr (n, _) ↦ absurd (n a)
          | inl (_, same) ↦
              let later = (turn o client_id accepted next id e r).1 in
              let done : (turns o client_id accepted next es later).0 ≡ applied =
                ap (λ (p : Applied × Room Editor). p.0) (sym same) ∙ a in
              let rest : (turns o client_id accepted next es later).1.recovering ≡ true = elim m [
                | inr k ↦ turns-unsent es later entry h k done
                | inl k ↦
                    let gone =
                      turn-gone id e r
                        (ap (λ (x : String × Editor). latest_document x.0 next) k ∙ h.is_gone) in
                    let unsent =
                      ap (λ (x : String × Editor). pending_of o client_id x.1) k ∙ h.are_unsent in
                    (reconcile_editors-Keeps o client_id accepted next es later).stays_recovering (
                      ap (λ (p : Applied × Room Editor). p.1.recovering) gone
                      ∙ remove_editor-recovers id e r h.first_update h.later_updates unsent)
              ] in
              ap (λ (p : Applied × Room Editor). p.1.recovering) same ∙ rest
        ]
