-- ===== src/FileInfo/Progress.antt =====
-- `GetBlock` of fileinfo.go changes the bytes of a block only.
use totorrent.Base.{
  ℕ, ◌/◌, ◌≡◌, ◌⊎◌, refl, subst, Bool, true, false, Option-cases, inl, inr, List, Bytes, Option,
  none, some, length, arith, set, length-set, if◌then◌else◌, Outcome, ok, bind_ok,
}
use totorrent.Piece.Block.{Block}
use totorrent.Piece.Impl.{Piece, block_count, get_block_from_offset}
use totorrent.Piece.Safe.{SafePieces, get, insert}
use totorrent.Piece.Safe.Far.{IsAsFar, insert-IsAsFar}
use totorrent.FileInfo.{read_from_downloaded_data, fill_block, get_block}

abbrev Got : Type 0
Got = Outcome (SafePieces × Option Block)

table_of : {t u : SafePieces} {o v : Option Block} → ◌≡◌ {A = Got} (ok (t, o)) (ok (u, v)) → t ≡ u
table_of e = cc e

-- The piece `j` of the table has as many blocks as before, and is the same otherwise.
pub record Refilled (j : ℕ) (t u : SafePieces) : Type 0 where
  pub piece : Piece
  pub blocks : List Block
  pub there : get j t ≡ some piece
  pub same_count : length blocks ≡ length piece.blocks
  pub table : insert j (record piece { blocks = blocks }) t ≡ u

fill_block-Refilled :
    (is_dir : Bool) (file : Option Bytes) (j i : ℕ) (q : Piece) (b : Block) (t : SafePieces)
    {u : SafePieces} {o : Option Block}
    → get j t ≡ some q
    → fill_block is_dir file j i q b t ≡ ok (u, o)
    → Refilled j t u
unfolding fill_block
fill_block-Refilled is_dir file j i q b t n e =
    let (content, _, r) =
      bind_ok (read_from_downloaded_data is_dir file q.idx b.idx (block_count q) b.block_length) _
        e in
    record {
      piece = q;
      blocks = set q.blocks i (record b { buff = content });
      there = n;
      same_count = length-set q.blocks i (record b { buff = content });
      table = table_of r;
    }

found_block-cases :
    (is_dir : Bool) (file : Option Bytes) (j begin l : ℕ) (seeding : Bool) (q : Piece)
    (t : SafePieces) (found : Option Block) {u : SafePieces} {o : Option Block}
    → get j t ≡ some q
    → ◌≡◌ {A = Got}
        (elim found as (λ _. Got) [
          | none ↦ ok (t, none)
          | some b ↦ if seeding then fill_block is_dir file j (begin / l) q b t else ok (t, some b)
        ])
        (ok (u, o))
    → (t ≡ u) ⊎ Refilled j t u
found_block-cases is_dir file j begin l seeding q t none n e = inl (table_of e)
found_block-cases is_dir file j begin l true q t (some b) n e =
    inr (fill_block-Refilled is_dir file j (begin / l) q b t n e)
found_block-cases is_dir file j begin l false q t (some b) n e = inl (table_of e)

pub get_block-cases :
    (is_dir : Bool) (file : Option Bytes) (j begin l : ℕ) (seeding : Bool) (t : SafePieces)
    {u : SafePieces} {o : Option Block}
    → get_block is_dir file j begin l seeding t ≡ ok (u, o)
    → (t ≡ u) ⊎ Refilled j t u
unfolding get_block
get_block-cases is_dir file j begin l seeding t e = elim (Option-cases (get j t)) [
  | inl n ↦ inl (table_of (rw (n, get_block) at e))
  | inr (q, n) ↦
      let (found, _, r) = bind_ok (get_block_from_offset q begin l) _ (rw (n, get_block) at e) in
      found_block-cases is_dir file j begin l seeding q t found n r
]

pub get_block-IsAsFar :
    (k : ℕ) (p : Piece) (is_dir : Bool) (file : Option Bytes) (j begin l : ℕ) (seeding : Bool)
    (t : SafePieces) {u : SafePieces} {o : Option Block}
    → get_block is_dir file j begin l seeding t ≡ ok (u, o)
    → IsAsFar k p t
    → IsAsFar k p u
get_block-IsAsFar k p is_dir file j begin l seeding t e a =
    elim (get_block-cases is_dir file j begin l seeding t e) [
      | inl same ↦ subst (IsAsFar k p) same a
      | inr r ↦ subst (IsAsFar k p) r.table (
          insert-IsAsFar k p j r.piece (record r.piece { blocks = r.blocks }) t r.there
            (omega arith) refl r.same_count a)
    ]
