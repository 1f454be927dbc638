-- ===== src/FileInfo/Create.antt =====
-- `NewFileInfo` of fileinfo/fileinfo.go, with its directories. What `os.Stat` tells of the download directory, whether
-- that can be made, and what `filepath.Abs` returns are arguments.
use totorrent.Base.{
  ℕ, Bool, [], Bytes, Option, ◌==◌, length, if◌then◌else◌, Outcome, ok, or_fail, io_error, ◌>>=◌,
}
use totorrent.Piece.Safe.{SafePieces}
use totorrent.Util.Env.{mkdir_all_or_panic, is_directory}
use totorrent.FileInfo.{new_pieces}

-- The `torrentInfo` and the `FinalizeFunc` are known where they are used, and have no field here.
pub record FileInfo : Type 0 where
  pub downloaded_blocks_dir : Bytes
  pub final_download_dir : Bytes
  pub is_seeding : Bool
  pub pieces : SafePieces

-- What the file system says of the download directory.
pub record DirEvents : Type 0 where
  pub stat : Option Bool
  pub makes : Bool
  pub absolute : Option Bytes

-- The directory is made unless it is there.
unfoldable pub make_download_dir : DirEvents → Outcome (Unit {0})
unfolding is_directory mkdir_all_or_panic
make_download_dir w = if is_directory w.stat then ok tt else mkdir_all_or_panic w.makes

-- No directory is given to a client that does not download.
unfoldable pub final_dir : DirEvents → Bytes → Outcome Bytes
unfolding make_download_dir
final_dir w path =
    if length path == 0 then ok [] else (do _ ← make_download_dir w; or_fail w.absolute io_error)

-- For `last_idx + 1` pieces.
unfoldable pub new_file_info : DirEvents → ℕ → ℕ → ℕ → ℕ → Bytes → Bytes → Bool → Outcome FileInfo
unfolding final_dir new_pieces
new_file_info w last_idx torrent_length piece_length block_length final_download_dir
      downloaded_blocks_dir is_seeding =
    do
      dir ← final_dir w final_download_dir
      pieces ← new_pieces last_idx torrent_length piece_length block_length is_seeding
      ok (record {
        downloaded_blocks_dir = downloaded_blocks_dir;
        final_download_dir = dir;
        is_seeding = is_seeding;
        pieces = pieces;
      })
