-- ===== src/LiveRoom/Metadata/Modes.antt =====
-- applyMetadataEvent of web/src/live-room.tsx: what it leaves of the room.
use xbin.Common.{
  ◌+◌, ◌≡◌, refl, ◌∙◌, String, Bool, true, false, none, some, if◌then◌else◌, Option-split, List,
  ltb, if-both, arith,
}
use xbin.Wire.Types.{RoomDocument}
use xbin.LiveRoom.{Editing, Room, get_editor_state, settle_operation}
use xbin.LiveRoom.Modes.{mode, settle_operation-mode}
use xbin.LiveRoom.Metadata.{
  next_documents, TabChange, created, updated, deleted, reordered, MetadataEvent, show_created,
  open_created, change_room, keep_active, end_metadata_operation, record_metadata,
  apply_metadata_event,
}

module _ {Editor : Type 0} where
  pub keep_active-mode : (r : Room Editor) → mode (keep_active r) ≡ mode r
  unfolding keep_active mode
  keep_active-mode r = ground arith

  pub end_metadata_operation-mode :
      (id : String) (r : Room Editor) → mode (end_metadata_operation id r) ≡ mode r
  unfolding end_metadata_operation mode
  end_metadata_operation-mode id r = ground arith

  record_metadata-mode :
      (event : MetadataEvent) (ds : List RoomDocument) (r : Room Editor)
      → mode (record_metadata event ds r) ≡ mode r
  unfolding record_metadata keep_active end_metadata_operation settle_operation mode
  record_metadata-mode event ds r = ground arith

module _ {Editor Changes : Type 0} (o : Editing Editor Changes) (client_id : String) where
  open_created-mode :
      (operation_id : String) (d : RoomDocument) (r : Room Editor)
      → mode (open_created o client_id operation_id d r) ≡ mode r
  unfolding open_created show_created get_editor_state mode
  open_created-mode operation_id d r = ground arith

  change_room-mode :
      (operation_id : String) (change : TabChange) (r : Room Editor)
      → mode (change_room o client_id operation_id change r) ≡ mode r
  unfolding change_room mode
  change_room-mode operation_id (created d) r = open_created-mode operation_id d r
  change_room-mode operation_id (updated id name language) r = refl
  change_room-mode operation_id (deleted id) r = refl
  change_room-mode operation_id (reordered order) r = refl

  pub apply_metadata_event-mode :
      (event : MetadataEvent) (r : Room Editor)
      → mode (apply_metadata_event o client_id event r).1 ≡ mode r
  unfolding apply_metadata_event
  apply_metadata_event-mode event r =
      let P = λ (p : Bool × Room Editor). mode p.1 ≡ mode r in
      let recorded : List RoomDocument → Bool × Room Editor = λ (ds : List RoomDocument). (
        true,
        record_metadata event ds (change_room o client_id event.operation_id event.change r),
      ) in
      let next = next_documents event.change r.documents in
      let placed : Bool × Room Editor = elim next [ none ↦ (false, r) | some ds ↦ recorded ds ] in
      if-both P {x = (true, settle_operation event.operation_id r)}
        {y = if ltb (r.metadata_revision + 1) event.revision then (false, r) else placed}
        (settle_operation-mode event.operation_id r)
        (if-both P {x = (false, r)} {y = placed} refl
          (Option-split P {n = (false, r)} {f = recorded} next (λ e. refl)
            (λ ds e.
              record_metadata-mode event ds _ ∙ change_room-mode event.operation_id event.change r))
          (ltb (r.metadata_revision + 1) event.revision))
        (ltb event.revision r.metadata_revision)
