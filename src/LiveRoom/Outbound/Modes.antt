-- ===== src/LiveRoom/Outbound/Modes.antt =====
-- replayPendingMetadata of web/src/live-room.tsx: what it leaves of the room.
use xbin.Common.{ℕ, ◌≡◌, Bool, arith}
use xbin.LiveRoom.Modes.{mode}
use xbin.LiveRoom.Outbound.{Client, send, mark, send_operation, replay_pending_metadata}

pub replay_pending_metadata-mode :
    {Editor : Type 0} (ready : Bool) (n : ℕ) (c : Client Editor)
    → mode (replay_pending_metadata ready n c).room ≡ mode c.room
unfolding replay_pending_metadata send_operation send mark mode
replay_pending_metadata-mode ready n c = ground arith
