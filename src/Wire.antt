-- ===== src/Wire.antt =====
-- web/src/live-wire.ts: the events that the server sends over a live room's socket, and their decoder.
-- A timestamp goes through the platform's `Date`, which is a parameter of the decoder.
pub mod Types
pub mod Parts
pub mod Decode
pub mod Encode
pub mod Valid
pub mod RoundTrip
pub mod Sound
pub mod Accepted
mod Tests
