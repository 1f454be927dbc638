-- ===== src/Wire.antt =====
-- peer/peermsg.go: the messages of the peer protocol.
pub mod Malformed
pub mod Msg
pub mod Bitfields
pub mod Blocks
pub mod Build
pub mod Parse
pub mod Fields
pub mod Frame
pub mod Handshake
pub mod Length
pub mod PieceList
pub mod RoundTrip
pub mod Samples
