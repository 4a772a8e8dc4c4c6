-- ===== src/LiveRoom/Maps.antt =====
-- What the maps of the room hold after a change.
use xbin.Common.{
  Option-split, ap, ◌∙◌, ◌≡◌, refl, String, false, some, List, [], ◌∷◌, str_eq, eq_iff, eq_refl,
  arith,
}
use xbin.Wire.Types.{RoomDocument}
use xbin.LiveRoom.{
  Editing, Room, get_editor_state, make_live_editor_state, lookup, insert, find_document,
}

module _ {A : Type 0} where
  pub lookup-insert :
      (k : String) (a : A) (m : List (String × A)) → lookup k (insert k a m) ≡ some a
  unfolding lookup insert
  lookup-insert k a [] = ground (arith, eq_refl k)
  lookup-insert k a ((j, b) ∷ m) = ground (arith, eq_refl k, lookup-insert k a m)

  pub lookup-insert_other :
      (k j : String) (a : A) (m : List (String × A))
      → str_eq k j ≡ false
      → lookup j (insert k a m) ≡ lookup j m
  unfolding lookup insert
  lookup-insert_other k j a [] h = ground arith
  lookup-insert_other k j a ((i, b) ∷ m) h =
      ground (arith, eq_iff i k, lookup-insert_other k j a m h)

pub find_document-id :
    (id : String) (ds : List RoomDocument) (d : RoomDocument)
    → find_document id ds ≡ some d
    → d.id ≡ id
unfolding find_document
find_document-id id [] d h = absurd (cc h)
find_document-id id (x ∷ ds) d h = ground (arith, eq_iff x.id id, find_document-id id ds d)

module _ {Editor Changes : Type 0} (o : Editing Editor Changes) (client_id : String) where
  pub get_editor_state-held :
      (document : RoomDocument) (r : Room Editor)
      → lookup document.id (get_editor_state o client_id document r).1.editors
        ≡ some (get_editor_state o client_id document r).0
  unfolding get_editor_state
  get_editor_state-held document r =
      Option-split (λ (p : Editor × Room Editor). lookup document.id p.1.editors ≡ some p.0)
        (lookup document.id r.editors)
        (λ e. lookup-insert document.id (make_live_editor_state o document client_id) r.editors)
        (λ e found. found)

  -- An editor that there is stays.
  pub get_editor_state-stays :
      (document : RoomDocument) (r : Room Editor) (k : String) (e : Editor)
      → lookup k r.editors ≡ some e
      → lookup k (get_editor_state o client_id document r).1.editors ≡ some e
  unfolding get_editor_state
  get_editor_state-stays document r k e h =
      Option-split (λ (p : Editor × Room Editor). lookup k p.1.editors ≡ some e)
        (lookup document.id r.editors)
        (λ n.
          let made = make_live_editor_state o document client_id in
          lookup-insert_other document.id k made r.editors
            (ground (arith, eq_iff document.id k, n, h, ap (λ i. lookup i r.editors)))
          ∙ h)
        (λ f found. h)

  -- So does its synchronized text.
  pub get_editor_state-text :
      (document : RoomDocument) (r : Room Editor) (k : String) (e : Editor)
      → lookup k r.editors ≡ some e
      → lookup k (get_editor_state o client_id document r).1.synced ≡ lookup k r.synced
  unfolding get_editor_state
  get_editor_state-text document r k e h =
      Option-split (λ (p : Editor × Room Editor). lookup k p.1.synced ≡ lookup k r.synced)
        (lookup document.id r.editors)
        (λ n.
          lookup-insert_other document.id k document.content r.synced
            (ground (arith, eq_iff document.id k, n, h, ap (λ i. lookup i r.editors))))
        (λ f found. refl)
