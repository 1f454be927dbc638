-- ===== src/Conn.antt =====
-- peer/peerconn.go, peer/blockrequester.go and peer/peermsghandlers.go: one connection to a peer.
pub mod Reader
pub mod State
pub mod Requester
pub mod Queue
pub mod Handlers
pub mod Loops
