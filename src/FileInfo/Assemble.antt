-- ===== src/FileInfo/Assemble.antt =====
-- fileinfo/fileinfo.go: `assembleBlocks`, which joins the files of the blocks to the finished file.
pub mod Sorted
pub mod Whole
use totorrent.Base.{
  Bool, true, false, List, [], ◌∷◌, ◌++◌, Bytes, Option, none, some, if◌then◌else◌, Error,
  err_fileinfo_assemble_blocks, err_fileinfo_assemble_blocks_already_exists, Outcome, ok, panic,
}
use totorrent.FileInfo.Names.{bytes_ltb, block_name}
use totorrent.Conn.State.{SavedBlock}

-- A file of the directory; `content` is `none` where it cannot be opened or copied.
pub record File : Type 0 where
  pub name : Bytes
  pub content : Option Bytes

-- The file that `SaveBlock` writes.
unfoldable pub file_of : SavedBlock → File
file_of b = record { name = block_name b.piece_idx b.block_idx; content = some b.content }

-- `sort.Strings` of the paths, which differ in the name only.
unfoldable pub insert_file : File → List File → List File
insert_file f [] = f ∷ []
insert_file f (g ∷ gs) =
    let rest = insert_file f gs in if bytes_ltb f.name g.name then f ∷ g ∷ gs else g ∷ rest

unfoldable pub sort_files : List File → List File
sort_files [] = []
sort_files (f ∷ fs) = insert_file f (sort_files fs)

-- What is written to the finished file, the block files that are left, and the error.
pub record Assembled : Type 0 where
  pub finished : Option Bytes
  pub left : List File
  pub error : Option Error

-- The loop over the sorted paths: each file is appended, and removed.
unfoldable pub copy_files : List File → Bytes → Assembled
copy_files [] written = record { finished = some written; left = []; error = none }
copy_files (f ∷ fs) written = elim f.content [
  | none ↦ record {
    finished = some written;
    left = f ∷ fs;
    error = some err_fileinfo_assemble_blocks;
  }
  | some content ↦ copy_files fs (written ++ content)
]

-- The directory of the blocks, if it can be read; the finished file, if it exists; and whether the working
-- directory is known (`filepath.Abs`), and the finished file can be made.
pub record Folders : Type 0 where
  pub blocks : Option (List File)
  pub finished_file : Option Bytes
  pub has_working_directory : Bool
  pub can_create : Bool

abbrev pub refused : Option Bytes → List File → Error → Assembled
refused finished files e = record { finished = finished; left = files; error = some e }

unfoldable pub assemble_listed : List File → Folders → Assembled
unfolding copy_files sort_files
assemble_listed files d =
    if d.has_working_directory
    then elim d.finished_file [
      | some content ↦ refused (some content) files err_fileinfo_assemble_blocks_already_exists
      | none ↦
          if d.can_create
          then copy_files (sort_files files) []
          else refused none files err_fileinfo_assemble_blocks
    ]
    else refused d.finished_file files err_fileinfo_assemble_blocks

unfoldable pub assemble_blocks_singlefilemode : Folders → Assembled
unfolding assemble_listed
assemble_blocks_singlefilemode d = elim d.blocks [
  | none ↦ refused d.finished_file [] err_fileinfo_assemble_blocks
  | some files ↦ assemble_listed files d
]

-- Only torrents of one file are implemented.
unfoldable pub assemble_blocks : Bool → Folders → Outcome Assembled
unfolding assemble_blocks_singlefilemode
assemble_blocks is_dir d = if is_dir then panic else ok (assemble_blocks_singlefilemode d)

-- `os.RemoveAll` of a directory, of which the error is ignored; `is_removed` tells whether it succeeds.
unfoldable pub delete_blocks_dir : Bool → Folders → Folders
delete_blocks_dir is_removed d = if is_removed then record d { blocks = none } else d

-- Without its directory the finished file cannot be made again.
unfoldable pub delete_final_download_dir : Bool → Folders → Folders
delete_final_download_dir is_removed d =
    if is_removed then record d { finished_file = none; can_create = false } else d
