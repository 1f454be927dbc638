-- ===== src/Piece.antt =====
-- piece/: blocks, pieces and the shared table of pieces.
pub mod Block
pub mod Impl
pub mod Safe
