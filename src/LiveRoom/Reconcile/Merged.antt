-- ===== src/LiveRoom/Reconcile/Merged.antt =====
-- The merged documents of reconcileSnapshot in web/src/live-room.tsx.
use xbin.Common.{◌≡◌, refl, ap, ◌∙◌, String, some, List, [], ◌∷◌, All}
use xbin.Wire.Types.{RoomDocument}
use xbin.LiveRoom.{Editing, Room, lookup, get_editor_state}
use xbin.LiveRoom.Maps.{get_editor_state-held, get_editor_state-stays, get_editor_state-text}
use xbin.LiveRoom.Metadata.Abstract.{tab_of, tabs}
use xbin.LiveRoom.Reconcile.{merge_documents}
use xbin.LiveRoom.Reconcile.Keeps.{Keeps, Keeps-self, Keeps-twice, get_editor_state-Keeps}

module _ {Editor Changes : Type 0} (o : Editing Editor Changes) (client_id : String) where
  -- The merged documents are the snapshot's, each with the text and the version of its editor.
  abbrev pub HasEditor : Room Editor → RoomDocument → Type 0
  HasEditor r d =
      (e : Editor) × (lookup d.id r.editors ≡ some e)
      × (d.content ≡ o.text e)
      × (d.revision ≡ o.synced_version e)

  pub record IsMerged (ds : List RoomDocument) (r : Room Editor)
      (p : List RoomDocument × Room Editor) : Type 0 where
    pub merged_tabs : tabs p.0 ≡ tabs ds
    pub have_editors : All (HasEditor p.1) p.0
    pub stay :
        (k : String) (e : Editor) → lookup k r.editors ≡ some e → lookup k p.1.editors ≡ some e
    pub kept : Keeps r p.1

  pub merge_documents-IsMerged :
      (ds : List RoomDocument) (r : Room Editor) → IsMerged ds r (merge_documents o client_id ds r)
  unfolding merge_documents tabs
  merge_documents-IsMerged [] r = record {
    merged_tabs = refl;
    have_editors = tt;
    stay = λ k e h. h;
    kept = Keeps-self r;
  }
  merge_documents-IsMerged (d ∷ ds) r =
      let (e, got) = get_editor_state o client_id d r in
      let rest = merge_documents-IsMerged ds got in
      record {
        merged_tabs = ap (tab_of d ∷◌) rest.merged_tabs;
        have_editors = (
          (e, rest.stay d.id e (get_editor_state-held o client_id d r), refl, refl),
          rest.have_editors,
        );
        stay = λ k f h. rest.stay k f (get_editor_state-stays o client_id d r k f h);
        kept = Keeps-twice (get_editor_state-Keeps o client_id d r) rest.kept;
      }

  -- The synchronized text of an editor that there is stays.
  pub merge_documents-text :
      (ds : List RoomDocument) (r : Room Editor) (k : String) (e : Editor)
      → lookup k r.editors ≡ some e
      → lookup k (merge_documents o client_id ds r).1.synced ≡ lookup k r.synced
  unfolding merge_documents
  merge_documents-text [] r k e h = refl
  merge_documents-text (d ∷ ds) r k e h =
      merge_documents-text ds (get_editor_state o client_id d r).1 k e
        (get_editor_state-stays o client_id d r k e h)
      ∙ get_editor_state-text o client_id d r k e h
