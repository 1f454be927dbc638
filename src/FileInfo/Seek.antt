-- ===== src/FileInfo/Seek.antt =====
-- The bytes that `GetBlock` of fileinfo.go reads for a block when it is seeding.
use totorrent.Base.{
  ℕ, suc, Bool, ◌+◌, ◌*◌, ◌/◌, ◌%◌, ◌≤◌, ◌<◌, ◌≡◌, refl, subst, sym, true, false, [], Bytes, some,
  length, take, drop, set, ◌==◌, ok, arith,
}
use totorrent.Piece.Block.{Block, pos, new_block}
use totorrent.Piece.Impl.{Piece, block_count, get_block_from_offset}
use totorrent.Piece.Impl.Marks.{marked}
use totorrent.Piece.Impl.Layout.{Sizes, Layout, block_total}
use totorrent.Piece.Impl.Offsets.{get_block_from_offset-regular}
use totorrent.Piece.Safe.{SafePieces, get, insert}
use totorrent.FileInfo.{get_block, fill_block, read_from_downloaded_data, read_single_file}
use native.Mathlib.Nat.{div-add-mod}
use mathlib.Core.List.{append-nil}

-- The answer to a request: `t` is the table before it.
abbrev pub Serves : Bytes → ℕ → ℕ → ℕ → SafePieces → ℕ → Type 0
Serves content k begin l t place =
    (t' : SafePieces) × (b : Block) × (get_block false (some content) k begin l true t
      ≡ ok (t', some b))
    × (b.piece_idx ≡ k)
    × (b.begin ≡ begin)
    × (b.buff ≡ take l (drop place content))

read_single_file-inside :
    (content : Bytes) (k i m l : ℕ)
    → 0 < l
    → (k * m + i) * l + l ≤ length content
    → read_single_file (some content) k (pos i) m l ≡ ok (take l (drop ((k * m + i) * l) content))
unfolding read_single_file
read_single_file-inside content k i m l lp h =
    ground (arith, append-nil (take l (drop ((k * m + i) * l) content)))

-- The block behind the read, and the table with it.
abbrev pub filled : Bytes → ℕ → ℕ → Block → Block
filled content place l b = record b { buff = take l (drop place content) }

abbrev pub refilled : ℕ → ℕ → Piece → Block → SafePieces → SafePieces
refilled k i p b t = insert k (record p { blocks = set p.blocks i b }) t

pub get_block-filled :
    (content : Bytes) (k begin i l : ℕ) (p : Piece) (b : Block) (t : SafePieces)
    → 0 < l
    → get k t ≡ some p
    → p.idx ≡ k
    → get_block_from_offset p begin l ≡ ok (some b)
    → b.idx ≡ pos i
    → b.block_length ≡ l
    → (k * length p.blocks + i) * l + l ≤ length content
    → get_block false (some content) k begin l true t
      ≡ ok (
        refilled k (begin / l) p (filled content ((k * length p.blocks + i) * l) l b) t,
        some (filled content ((k * length p.blocks + i) * l) l b),
      )
unfolding get_block fill_block read_from_downloaded_data block_count
get_block-filled content k begin i l p b t lp g e found bi bl c =
    let read = read_single_file-inside content k i (length p.blocks) l lp c in
    rw (get_block, g, found, fill_block, e, bi, bl, read) refl

get_block-found :
    (content : Bytes) (k begin i l : ℕ) (p : Piece) (b : Block) (t : SafePieces)
    → 0 < l
    → get k t ≡ some p
    → p.idx ≡ k
    → get_block_from_offset p begin l ≡ ok (some b)
    → b.idx ≡ pos i
    → b.piece_idx ≡ k
    → b.begin ≡ begin
    → b.block_length ≡ l
    → (k * length p.blocks + i) * l + l ≤ length content
    → Serves content k begin l t ((k * length p.blocks + i) * l)
get_block-found content k begin i l p b t lp g e found bi bk bb bl c =
    (_, _, get_block-filled content k begin i l p b t lp g e found bi bl c, bk, bb, refl)

abbrev pub IsAt : ℕ → ℕ → ℕ → Block → Type 0
IsAt k i l b = (b.idx ≡ pos i) × (b.piece_idx ≡ k) × (b.begin ≡ i * l) × (b.block_length ≡ l)

pub marked-IsAt :
    (last : Bool) (k i l : ℕ) → IsAt k i l (marked last (new_block (pos i) k (i * l) l []))
unfolding new_block
marked-IsAt true k i l = (refl, refl, refl, refl)
marked-IsAt false k i l = (refl, refl, refl, refl)

module _ (k n l : ℕ) (p : Piece) (s : Sizes n l) (y : Layout k n l p) where
  -- A seed answers the request for full block `i` of piece `k` with the bytes of the finished file
  -- at block `k * n + i`, where `n` is the number of blocks of piece `k` itself, if the file
  -- reaches that far. The last piece can have fewer blocks than those before it.
  pub get_block-place :
      (content : Bytes) (t : SafePieces) (i : ℕ)
      → get k t ≡ some p
      → p.idx ≡ k
      → i < n / l
      → (k * block_total n l + i) * l + l ≤ length content
      → Serves content k (i * l) l t ((k * block_total n l + i) * l)
  get_block-place content t i g e h c =
      let at = marked-IsAt (suc i == block_total n l) k i l in
      subst (λ m. Serves content k (i * l) l t ((k * m + i) * l)) y.count
        (get_block-found content k (i * l) i l p
          (marked (suc i == block_total n l) (new_block (pos i) k (i * l) l [])) t s.block_pos g e
          (get_block_from_offset-regular k n l p s y i h) at.0 at.1 at.2 at.3
          (subst (λ m. (k * m + i) * l + l ≤ length content) (sym y.count) c))

  aligned : (i : ℕ) → n % l ≡ 0 → (k * block_total n l + i) * l ≡ k * n + i * l
  aligned i z = ground (arith, div-add-mod n l)

  -- In a piece that is a whole number of blocks, a seed answers the request for a full block with
  -- the bytes of the finished file at the start of the piece, counted in pieces of the same length,
  -- plus the offset of the block, if the file reaches that far.
  pub get_block-aligned :
      (content : Bytes) (t : SafePieces) (i : ℕ)
      → get k t ≡ some p
      → p.idx ≡ k
      → n % l ≡ 0
      → i < n / l
      → k * n + i * l + l ≤ length content
      → Serves content k (i * l) l t (k * n + i * l)
  get_block-aligned content t i g e z h c = subst (Serves content k (i * l) l t) (aligned i z) (
      get_block-place content t i g e h (subst (λ m. m + l ≤ length content) (sym (aligned i z)) c))
