-- ===== src/Hid.antt =====
-- The CTAPHID transport (src/consts.rs, src/u2ftypes.rs, src/transport/hid.rs).
mod Tests
pub mod Cmd
pub mod Device
pub mod Frame
pub mod Message
pub mod Packets
pub mod Frames
pub mod Writes
pub mod Sequence
pub mod Reads
pub mod RoundTrip
pub mod Ends
pub mod WritesEnd
pub mod ReadsEnd
pub mod Exchange
pub mod Answers
pub mod Channel
