-- ===== src/Util.antt =====
-- util/: slices of integers and the bitfield.
pub mod Env
pub mod Slices
pub mod Bitfield
