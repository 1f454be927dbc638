-- ===== src/Piece/Block.antt =====
-- piece/block.go: a block of a piece.
use totorrent.Base.{ℕ, Bool, false, [], Bytes, ℕ_discrete}

-- A Go `int` that can be negative; `negsuc n` is -(n + 1).
pub data ℤ : Type 0 where
  pos : ℕ → ℤ
  negsuc : ℕ → ℤ

pub ℤ-discrete : Discrete ℤ
ℤ-discrete = hlevel ℕ_discrete

pub record Block : Type 0 where
  pub idx : ℤ
  pub piece_idx : ℕ
  pub begin : ℕ  -- uint32
  pub buff : Bytes
  pub block_length : ℕ  -- uint32
  pub downloader_peer_id : Bytes
  pub is_last_block : Bool

unfoldable pub new_block : ℤ → ℕ → ℕ → ℕ → Bytes → Block
new_block block_idx piece_idx begin block_length buff = record {
  idx = block_idx;
  piece_idx = piece_idx;
  begin = begin;
  buff = buff;
  block_length = block_length;
  downloader_peer_id = [];
  is_last_block = false;
}
