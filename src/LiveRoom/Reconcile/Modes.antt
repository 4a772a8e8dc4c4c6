-- ===== src/LiveRoom/Reconcile/Modes.antt =====
-- reconcileSnapshot of web/src/live-room.tsx: it leaves alone whether the room resynchronizes, and takes no room
-- that is in recovery for connected.
use xbin.Common.{ℕ, ◌≡◌, refl, ◌∙◌, String, none, List, [], ◌∷◌, ltb, if◌then◌else◌, if-both}
use xbin.Wire.Types.{RoomDocument}
use xbin.Reconciliation.{Authority}
use xbin.LiveRoom.{
  Editing, Room, Applied, applied, gap, thrown, get_editor_state, normalize_live_documents,
}
use xbin.LiveRoom.Modes.{mode, IsQuiet, IsQuiet-by_mode, IsQuiet-twice, get_editor_state-mode}
use xbin.LiveRoom.Metadata.Modes.{keep_active-mode}
use xbin.LiveRoom.Reconcile.{
  merge_documents, adopt_snapshot, settle_accepted, reconcile_editors, reconcile_snapshot,
}
use xbin.LiveRoom.Reconcile.Keeps.{Keeps-twice, settle_accepted-Keeps, reconcile_editors-Keeps}

-- What reconcileSnapshot gives after its loop.
abbrev after_loop : {Editor : Type 0} → Applied → Room Editor → Room Editor → Applied × Room Editor
after_loop a left adopted = elim a [
  | applied ↦ (applied, adopted)
  | gap ↦ (gap, left)
  | thrown ↦ (thrown, left)
]

after_loop-IsQuiet :
    {Editor : Type 0} (a : Applied) (r left adopted : Room Editor)
    → IsQuiet r left
    → IsQuiet r adopted
    → IsQuiet r (after_loop a left adopted).1
after_loop-IsQuiet applied r left adopted h k = k
after_loop-IsQuiet gap r left adopted h k = h
after_loop-IsQuiet thrown r left adopted h k = h

module _ {Editor Changes : Type 0} (o : Editing Editor Changes) (client_id : String) where
  merge_documents-mode :
      (ds : List RoomDocument) (r : Room Editor)
      → mode (merge_documents o client_id ds r).1 ≡ mode r
  unfolding merge_documents
  merge_documents-mode [] r = refl
  merge_documents-mode (d ∷ ds) r =
      merge_documents-mode ds (get_editor_state o client_id d r).1
      ∙ get_editor_state-mode o client_id d r

  adopt_snapshot-mode :
      (next : List RoomDocument) (n : ℕ) (r : Room Editor)
      → mode (adopt_snapshot o client_id next n r) ≡ mode r
  unfolding adopt_snapshot mode
  adopt_snapshot-mode next n r =
      let (merged, r') = merge_documents o client_id next r in
      keep_active-mode (record r' {
        documents = merged;
        pending_order = none;
        metadata_revision = if ltb r'.metadata_revision n then n else r'.metadata_revision;
      })
      ∙ merge_documents-mode next r

  -- It is so whatever the snapshot is.
  pub reconcile_snapshot-IsQuiet :
      (documents : List RoomDocument) (n : ℕ) (requested : Authority) (accepted : List String)
      (r : Room Editor)
      → IsQuiet r (reconcile_snapshot o client_id documents n requested accepted r).1
  unfolding reconcile_snapshot
  reconcile_snapshot-IsQuiet documents n requested accepted r =
      let next = normalize_live_documents documents in
      let settled = settle_accepted accepted r.tracker r in
      let looped = reconcile_editors o client_id accepted next settled.editors settled in
      let k =
        Keeps-twice (settle_accepted-Keeps accepted r.tracker r)
          (reconcile_editors-Keeps o client_id accepted next settled.editors settled) in
      let kept : IsQuiet r looped.1 = (k.same_resyncing, k.stays_held) in
      let adopted = adopt_snapshot o client_id next n looped.1 in
      let m = adopt_snapshot-mode next n looped.1 in
      if-both (λ (p : Applied × Room Editor). IsQuiet r p.1) {x = (gap, r)}
        {y = after_loop looped.0 looped.1 adopted} (refl, λ h. h)
        (after_loop-IsQuiet looped.0 r looped.1 adopted kept
          (IsQuiet-twice r looped.1 adopted kept (IsQuiet-by_mode looped.1 adopted m)))
        _
