-- ===== src/Conn/Handlers.antt =====
-- peer/peermsghandlers.go: what a connection does with a message.
pub mod Arriving
pub mod Complete
pub mod Distinct
pub mod Gives
pub mod Progress
pub mod Stable
pub mod Table
use totorrent.Base.{
  ℕ, zero, suc, ◌+◌, Bool, true, false, List, [], ◌∷◌, ◌++◌, Bytes, Option, none, some, length, ltb,
  ◌==◌, if◌then◌else◌, Outcome, ok, err, panic, blocked, Error,
  err_fileinfo_assemble_blocks_already_exists, ◌>>=◌,
}
use totorrent.Piece.Block.{ℤ, pos, negsuc, Block}
use totorrent.Piece.Impl.{Piece, block_count}
use totorrent.Piece.Safe.{
  SafePieces, get, mark_as_done, max_piece_idx, downloaded_piece_indices, total_undone_pieces_left,
}
use totorrent.Util.Slices.{int_slice_has, int_slice_unique_merge_slices}
use totorrent.Wire.Msg.{
  PeerMsg, handshake, keep_alive, choked, unchoked, interested, not_interested, have, bitfield,
  request, piece,
}
use totorrent.Wire.Build.{build_peer_interested_msg, build_peer_unchoked_msg, build_peer_piece_msg}
use totorrent.Wire.Bitfields.{build_peer_bitfield_msg, get_piece_indices}
use totorrent.Wire.Fields.{have_get_piece_idx, request_get_block, piece_get_block}
use totorrent.FileInfo.{get_block, save_block}
use totorrent.Conn.State.{BlockRequester, Conn, write_peer_msg, mark_downloading, decrement}
use totorrent.Conn.Requester.{new_block_requester, reset, on_block_receive}
use totorrent.Conn.Queue.{request_next_piece}

-- What lies outside the program: whether the torrent is a directory, the file that `GetBlock` reads,
-- the error of the write in `SaveBlock`, and that of `assembleBlocks`, nil where they succeed.
pub record Files : Type 0 where
  pub is_dir : Bool
  pub finished_file : Option Bytes
  pub write_error : Option Error
  pub assemble_error : Option Error

-- A handler returns the connection and the error, if any, that it returns; the caller sends that on
-- `errChan`.
abbrev pub Handled : Type 0
Handled = Outcome (Conn × Option Error)

-- A call whose error the handler returns at once.
abbrev pub try {ℓ} : {A : Type ℓ} → Conn → Outcome A → (A → Handled) → Handled
try c (ok a) f = f a
try c (err e) f = ok (c, some e)
try c panic f = panic
try c blocked f = blocked

-- `RequestNextPiece`, whose number of blocks the handlers do not use.
abbrev pub go_on : Conn → Handled
go_on c = request_next_piece c >>= λ r. ok (r.0, none)

-- `DefaultFinalizeFunc`, behind `assembleBlocks`: a file that is there already is no error.
unfoldable pub default_finalize_func : Option Error → Conn → Handled
default_finalize_func none c = ok (record c { is_seeding = true }, none)
default_finalize_func (some err_fileinfo_assemble_blocks_already_exists) c =
    ok (record c { is_seeding = true }, none)
default_finalize_func (some e) c = ok (c, some e)

-- An error of the bitfield is ignored.
unfoldable pub handle_handshake : Conn → Handled
handle_handshake c =
    let greeted = write_peer_msg build_peer_interested_msg c in
    if length (downloaded_piece_indices c.pieces) == 0
    then ok (greeted, none)
    else elim (build_peer_bitfield_msg (some c.pieces)) [
      | ok m ↦ ok (write_peer_msg m greeted, none)
      | err e ↦ ok (greeted, none)
      | panic ↦ panic
      | blocked ↦ blocked
    ]

-- A nil block is dereferenced by `BuildPeerPieceMsg`.
unfoldable pub answer_request : Conn → SafePieces × Option Block → Handled
answer_request c (t, none) = panic
answer_request c (t, some b) =
    ok (write_peer_msg (build_peer_piece_msg b) (record c { pieces = t }), none)

unfoldable pub handle_request : Files → Bytes → Conn → Handled
unfolding answer_request
handle_request fs p c = try c (request_get_block p) λ b.
    try c
      (get_block fs.is_dir fs.finished_file b.piece_idx b.begin b.block_length c.is_seeding
        c.pieces)
      (answer_request c)

-- The last block of a piece has come, and the requester `r` counts none left.
unfoldable pub finish_piece : Files → ℕ → BlockRequester → Conn → Handled
unfolding default_finalize_func
finish_piece fs k r c = do
  t ← mark_as_done k c.pieces
  let marked = record c { block_requester = some (reset r); pieces = t }
  if total_undone_pieces_left t == 0
      then default_finalize_func fs.assemble_error (mark_downloading false marked)
      else go_on marked

abbrev pub is_zero : ℤ → Bool
is_zero (pos n) = n == 0
is_zero (negsuc n) = false

-- The block is counted before it is saved; a write that fails ends the handler.
unfoldable pub store_block : Files → Block → BlockRequester → Conn → Handled
unfolding finish_piece
store_block fs b r c =
    let counted = record c { block_requester = some r } in
    elim fs.write_error [
      | some e ↦ ok (counted, some e)
      | none ↦
          let stored = record counted { saved_blocks = save_block b c.saved_blocks } in
          if is_zero r.blocks_left then finish_piece fs b.piece_idx r stored else ok (stored, none)
    ]

unfoldable pub handle_piece : Files → Bytes → Conn → Handled
unfolding store_block
handle_piece fs p c = try c (piece_get_block p) λ b. elim c.block_requester [
  | none ↦ panic
  | some r ↦ on_block_receive b r >>= λ r'. store_block fs b r' c
]

-- The first pieces of a peer: a requester for the piece `k`, and the first requests.
unfoldable pub start_downloading : ℕ → Conn → Handled
start_downloading k c = elim (get k c.pieces) [
  | none ↦ panic
  | some p ↦ go_on (record c { block_requester = some (new_block_requester (block_count p)) })
]

-- `piecesToDownloadQueue[0]` panics on an empty queue.
unfoldable pub start_with_first : List ℕ → Conn → Handled
unfolding start_downloading
start_with_first [] c = panic
start_with_first (k ∷ queue) c = start_downloading k c

unfoldable pub handle_bitfield : Bytes → Conn → Handled
unfolding start_with_first
handle_bitfield p c = try c (get_piece_indices p (max_piece_idx c.pieces)) λ indices.
    let queue = int_slice_unique_merge_slices c.pieces_to_download_queue indices in
    let queued = record c { pieces_to_download_queue = queue } in
    if length indices == 0
    then ok (c, none)
    else if length c.pieces_to_download_queue == 0
    then start_with_first queue queued
    else ok (queued, none)

unfoldable pub handle_have : Bytes → Conn → Handled
unfolding start_downloading
handle_have p c = try c (have_get_piece_idx p) λ k.
    let queued = record c { pieces_to_download_queue = c.pieces_to_download_queue ++ k ∷ [] } in
    if int_slice_has c.pieces_to_download_queue k
    then ok (c, none)
    else if length c.pieces_to_download_queue == 0
    then start_downloading k queued
    else ok (queued, none)

unfoldable pub handle_interested : Conn → Handled
handle_interested c = ok (write_peer_msg build_peer_unchoked_msg c, none)

-- `Conn.Close()`, for CHOKED and for NOT_INTERESTED.
unfoldable pub handle_drop : Conn → Handled
handle_drop c = ok (record c { is_closed = true }, none)

-- KEEP_ALIVE and UNCHOKED are read, and change nothing.
abbrev handle_keep_alive : Conn → Handled
handle_keep_alive c = ok (c, none)

abbrev handle_unchoked : Conn → Handled
handle_unchoked c = ok (c, none)

-- `DefaultPeerMsgFunc`.
unfoldable pub default_peer_msg_func : Files → PeerMsg → Conn → Handled
default_peer_msg_func fs (handshake p) c = handle_handshake c
default_peer_msg_func fs (keep_alive p) c = handle_keep_alive c
default_peer_msg_func fs (interested p) c = handle_interested c
default_peer_msg_func fs (not_interested p) c = handle_drop c
default_peer_msg_func fs (unchoked p) c = handle_unchoked c
default_peer_msg_func fs (choked p) c = handle_drop c
default_peer_msg_func fs (have p) c = handle_have p c
default_peer_msg_func fs (bitfield p) c = handle_bitfield p c
default_peer_msg_func fs (request p) c = handle_request fs p c
default_peer_msg_func fs (piece p) c = handle_piece fs p c

abbrev pub sent_error : Option Error → List Error → List Error
sent_error none es = es
sent_error (some e) es = e ∷ es

-- The goroutine of `listenForMessages` that gives each message to `PeerMsgFunc`, one handler after the other,
-- with the errors that they send on `errChan`. The first error ends `listenForMessages`, but not this loop.
unfoldable pub handle_all : Files → List PeerMsg → Conn → Outcome (Conn × List Error)
handle_all fs [] c = ok (c, [])
handle_all fs (m ∷ ms) c = do
  (d, e) ← default_peer_msg_func fs m c
  (d', es) ← handle_all fs ms d
  ok (d', sent_error e es)
