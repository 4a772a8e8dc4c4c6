-- ===== src/LiveRoom/Modes.antt =====
-- The part of the room that says whether it is in recovery or resynchronizes, and the connection it takes itself to have,
-- with the helpers of web/src/live-room.tsx that leave it alone.
use xbin.Common.{◌≡◌, refl, ap, ◌∙◌, String, Bool, true, not, ◌&&◌, arith}
use xbin.Wire.Types.{RoomDocument}
use xbin.Connection.{ConnectionState, connecting, connected, reconnecting, offline, recovery}
use xbin.LiveRoom.{
  Editing, Room, settle_operation, set_connection_state, schedule_flush, update_queue_state,
  get_editor_state,
}
use xbin.LiveRoom.Outbound.{is_joined}

-- The room is not in recovery, or not taken for connected.
unfoldable pub is_held : {Editor : Type 0} → Room Editor → Bool
is_held r = not (r.recovering && is_joined r.connection)

unfoldable pub mode : {Editor : Type 0} → Room Editor → Bool × ConnectionState × Bool
mode r = (r.recovering, r.connection, r.resyncing)

pub held_by_mode : {Editor : Type 0} (r s : Room Editor) → mode s ≡ mode r → is_held s ≡ is_held r
unfolding is_held mode
held_by_mode r s e = ap (λ (m : Bool × ConnectionState × Bool). not (m.0 && is_joined m.1)) e

pub resyncing_by_mode :
    {Editor : Type 0} (r s : Room Editor) → mode s ≡ mode r → s.resyncing ≡ r.resyncing
unfolding mode
resyncing_by_mode r s e = ap (λ (m : Bool × ConnectionState × Bool). m.2) e

pub set_connection_state-held :
    {Editor : Type 0} (s : ConnectionState) (r : Room Editor)
    → is_held (set_connection_state s r) ≡ true
unfolding is_held set_connection_state
set_connection_state-held connecting r = ground arith
set_connection_state-held connected r = ground arith
set_connection_state-held reconnecting r = ground arith
set_connection_state-held offline r = ground arith
set_connection_state-held recovery r = ground arith

set_connection_state-resyncing :
    {Editor : Type 0} (s : ConnectionState) (r : Room Editor)
    → (set_connection_state s r).resyncing ≡ r.resyncing
unfolding set_connection_state
set_connection_state-resyncing connected r = refl
set_connection_state-resyncing _ r = refl

-- A later room resynchronizes like the former, and is held if that is.
abbrev pub IsQuiet : {Editor : Type 0} → Room Editor → Room Editor → Type 0
IsQuiet r s = (s.resyncing ≡ r.resyncing) × (is_held r ≡ true → is_held s ≡ true)

pub IsQuiet-by_mode : {Editor : Type 0} (r s : Room Editor) → mode s ≡ mode r → IsQuiet r s
IsQuiet-by_mode r s e = (resyncing_by_mode r s e, λ h. held_by_mode r s e ∙ h)

pub IsQuiet-twice :
    {Editor : Type 0} (r s t : Room Editor) → IsQuiet r s → IsQuiet s t → IsQuiet r t
IsQuiet-twice r s t (e, h) (e', h') = (e' ∙ e, λ k. h' (h k))

pub set_connection_state-IsQuiet :
    {Editor : Type 0} (s : ConnectionState) (r : Room Editor) → IsQuiet r (set_connection_state s r)
set_connection_state-IsQuiet s r =
    (set_connection_state-resyncing s r, λ h. set_connection_state-held s r)

pub schedule_flush-mode : {Editor : Type 0} (r : Room Editor) → mode (schedule_flush r) ≡ mode r
unfolding schedule_flush mode
schedule_flush-mode r = ground arith

pub settle_operation-mode :
    {Editor : Type 0} (id : String) (r : Room Editor) → mode (settle_operation id r) ≡ mode r
unfolding settle_operation mode
settle_operation-mode id r = refl

module _ {Editor Changes : Type 0} (o : Editing Editor Changes) where
  pub get_editor_state-mode :
      (client_id : String) (d : RoomDocument) (r : Room Editor)
      → mode (get_editor_state o client_id d r).1 ≡ mode r
  unfolding get_editor_state mode
  get_editor_state-mode client_id d r = ground arith

  pub update_queue_state-mode :
      (b : Bool) (r : Room Editor) → mode (update_queue_state o b r) ≡ mode r
  unfolding update_queue_state mode
  update_queue_state-mode b r = ground arith
