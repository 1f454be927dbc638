-- ===== src/FileInfo.antt =====
-- fileinfo/fileinfo.go: the pieces of a torrent, and the bytes of a block in the finished file.
pub mod Assemble
pub mod Create
pub mod Listed
pub mod Names
pub mod Pieces
pub mod Progress
pub mod Random
pub mod Seek
use totorrent.Base.{
  ℕ, zero, suc, ◌+◌, ◌-◌, ◌*◌, ◌/◌, ◌%◌, Bool, ◌&&◌, true, false, List, [], ◌∷◌, ◌++◌, Bytes,
  Option, none, some, length, set, take, drop, replicate, leb, ltb, ◌==◌, if◌then◌else◌, Outcome,
  ok, err, panic, io_error, err_fileinfo_read_downloaded_data, ◌>>=◌, or_fail,
}
use totorrent.Piece.Block.{ℤ, pos, negsuc, Block}
use totorrent.Piece.Impl.{Piece, calculate_new_piece, get_block_from_offset, block_count}
use totorrent.Piece.Safe.{SafePieces, new_safe_pieces, get, insert, put, set_as_last}
use totorrent.Conn.State.{SavedBlock}

-- `count` regular pieces from number `piece_idx` on.
unfoldable pub put_regular_pieces : ℕ → ℕ → ℕ → ℕ → Bool → SafePieces → Outcome SafePieces
put_regular_pieces zero piece_idx piece_length block_length is_seeding t = ok t
put_regular_pieces (suc count) piece_idx piece_length block_length is_seeding t = do
  p ← calculate_new_piece piece_idx piece_length block_length is_seeding
  put_regular_pieces count (suc piece_idx) piece_length block_length is_seeding (put p t)

-- The length of the last piece.
abbrev pub last_length : ℕ → ℕ → ℕ
last_length torrent_length piece_length =
    if torrent_length % piece_length == 0 then piece_length else torrent_length % piece_length

-- The pieces of `NewFileInfo`, for `last_idx + 1` pieces: the directories that it makes are not
-- modelled, and neither is a torrent of no pieces. A piece length of 0 divides by 0.
unfoldable pub new_pieces : ℕ → ℕ → ℕ → ℕ → Bool → Outcome SafePieces
new_pieces last_idx torrent_length piece_length block_length is_seeding = do
  t ← put_regular_pieces last_idx 0 piece_length block_length is_seeding new_safe_pieces
  if piece_length == 0 then panic else do
    p ←
        calculate_new_piece last_idx (last_length torrent_length piece_length) block_length
          is_seeding
    set_as_last last_idx (put p t)

-- `seekLoc`: the place of a block in the finished file, counted in blocks of its own length.
abbrev pub seek_loc : ℕ → ℤ → ℕ → ℕ → Option ℕ
seek_loc piece_idx (pos block_idx) blocks_per_piece block_length =
    some ((piece_idx * blocks_per_piece + block_idx) * block_length)
seek_loc piece_idx (negsuc n) blocks_per_piece block_length =
    if ltb (piece_idx * blocks_per_piece) (suc n)
    then none
    else some ((piece_idx * blocks_per_piece - suc n) * block_length)

-- The finished file: `none` where the directory does not hold one file that opens. A seek to a
-- negative place and a read at the end are errors; a read across the end leaves zeros.
unfoldable pub read_single_file : Option Bytes → ℕ → ℤ → ℕ → ℕ → Outcome Bytes
read_single_file file piece_idx block_idx blocks_per_piece block_length = do
  content ← or_fail file err_fileinfo_read_downloaded_data
  at ←
      or_fail (seek_loc piece_idx block_idx blocks_per_piece block_length)
        err_fileinfo_read_downloaded_data
  if leb (length content) at && ltb 0 block_length
      then err err_fileinfo_read_downloaded_data
      else ok (
          take block_length (drop at content) ++ replicate (block_length - (length content - at)) 0)

-- `readFromDownloadedData`: only torrents of one file are implemented.
unfoldable pub read_from_downloaded_data : Bool → Option Bytes → ℕ → ℤ → ℕ → ℕ → Outcome Bytes
unfolding read_single_file
read_from_downloaded_data is_dir file piece_idx block_idx blocks_per_piece block_length =
    if is_dir
    then panic
    else read_single_file file piece_idx block_idx blocks_per_piece block_length

-- The bytes go into the block of the table, which is returned. Where the read fails the code leaves nil
-- there, which the next request reads afresh; the model leaves the block as it was.
unfoldable pub fill_block :
    Bool → Option Bytes → ℕ → ℕ → Piece → Block → SafePieces → Outcome (SafePieces × Option Block)
fill_block is_dir file k i p b t = do
  content ← read_from_downloaded_data is_dir file p.idx b.idx (block_count p) b.block_length
  let filled = record b { buff = content }
  ok (insert k (record p { blocks = set p.blocks i filled }) t, some filled)

-- A piece or block that is not there is nil, with no error.
unfoldable pub get_block :
    Bool → Option Bytes → ℕ → ℕ → ℕ → Bool → SafePieces → Outcome (SafePieces × Option Block)
unfolding fill_block
get_block is_dir file k block_begin block_length is_seeding t = elim (get k t) [
  | none ↦ ok (t, none)
  | some p ↦ get_block_from_offset p block_begin block_length >>= λ found. elim found [
    | none ↦ ok (t, none)
    | some b ↦
        if is_seeding
        then fill_block is_dir file k (block_begin / block_length) p b t
        else ok (t, some b)
  ]
]

-- `SaveBlock`, where the file is written.
unfoldable pub save_block : Block → List SavedBlock → List SavedBlock
save_block b saved = record { piece_idx = b.piece_idx; block_idx = b.idx; content = b.buff } ∷ saved
