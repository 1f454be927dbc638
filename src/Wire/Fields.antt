-- ===== src/Wire/Fields.antt =====
-- The getters of peermsg.go that read a field of the payload. Each takes the payload.
use totorrent.Base.{ℕ, ◌-◌, ◌/◌, ◌+◌, [], Bytes, length, ◌==◌, ltb, if◌then◌else◌}
use totorrent.Base.{Outcome, ok, panic, err_peermsg_func, err_requestpeermsg, ◌>>=◌, or_fail, wrap}
use totorrent.Base.Words.{be_uint32, read_at}
use totorrent.Piece.Block.{Block, new_block, pos}

unfoldable pub have_get_piece_idx : Bytes → Outcome ℕ
have_get_piece_idx p = be_uint32 p

-- Four bytes at `off`, as a big-endian number.
unfoldable pub uint32_at : Bytes → ℕ → Outcome ℕ
uint32_at p off = do buff ← or_fail (read_at p 4 off) err_peermsg_func; be_uint32 buff

unfoldable pub request_get_piece_idx : Bytes → Outcome ℕ
unfolding uint32_at
request_get_piece_idx p = uint32_at p 0

unfoldable pub request_get_block_begin : Bytes → Outcome ℕ
unfolding uint32_at
request_get_block_begin p = uint32_at p 4

unfoldable pub request_get_block_length : Bytes → Outcome ℕ
unfolding uint32_at
request_get_block_length p = uint32_at p 8

-- Go's integer division, which panics on a divisor of 0.
abbrev pub div_int : ℕ → ℕ → Outcome ℕ
div_int a b = if b == 0 then panic else ok (a / b)

unfoldable pub request_get_block : Bytes → Outcome Block
unfolding request_get_piece_idx request_get_block_begin request_get_block_length
request_get_block p = do
  block_begin ← wrap (request_get_block_begin p) err_requestpeermsg
  block_length ← wrap (request_get_block_length p) err_requestpeermsg
  piece_idx ← wrap (request_get_piece_idx p) err_requestpeermsg
  idx ← div_int block_begin block_length
  ok (new_block (pos idx) piece_idx block_begin block_length [])

unfoldable pub handshake_get_info_hash : Bytes → Outcome Bytes
handshake_get_info_hash p = or_fail (read_at p 20 (1 + 19 + 8)) err_peermsg_func

unfoldable pub handshake_get_peer_id : Bytes → Outcome Bytes
handshake_get_peer_id p = or_fail (read_at p 20 (1 + 19 + 8 + 20)) err_peermsg_func

unfoldable pub piece_get_piece_idx : Bytes → Outcome ℕ
unfolding uint32_at
piece_get_piece_idx p = uint32_at p 0

unfoldable pub piece_get_block_begin : Bytes → Outcome ℕ
unfolding uint32_at
piece_get_block_begin p = uint32_at p 4

-- `make([]byte, n)` panics on a negative size.
unfoldable pub piece_get_block_buff : Bytes → Outcome Bytes
piece_get_block_buff p =
    if ltb (length p) 8 then panic else or_fail (read_at p (length p - 8) 8) err_peermsg_func

unfoldable pub piece_get_block : Bytes → Outcome Block
unfolding piece_get_piece_idx piece_get_block_begin piece_get_block_buff
piece_get_block p = do
  block_begin ← wrap (piece_get_block_begin p) err_requestpeermsg
  block_buff ← wrap (piece_get_block_buff p) err_requestpeermsg
  piece_idx ← wrap (piece_get_piece_idx p) err_requestpeermsg
  idx ← div_int block_begin (length block_buff)
  ok (new_block (pos idx) piece_idx block_begin (length block_buff) block_buff)
