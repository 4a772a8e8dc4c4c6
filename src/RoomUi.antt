-- ===== src/RoomUi.antt =====
-- web/src/live-room-ui.ts: the room's tabs and the cursors of the others.
pub mod Tabs
pub mod Names
pub mod Cursors
