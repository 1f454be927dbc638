-- ===== src/FileInfo/Listed.antt =====
-- The numbers of the pieces that `NewFileInfo` of fileinfo.go makes.
use totorrent.Base.{
  ℕ, zero, suc, ◌+◌, ◌*◌, ◌≤◌, ◌<◌, ◌≡◌, refl, Bool, length, true, false, some, arith, ◌==◌,
  if◌then◌else◌, ok,
}
use totorrent.Piece.Impl.{PieceStatus, idle, done, set_as_last_piece}
use totorrent.Piece.Impl.Layout.{Sizes, calculate_new_piece-Layout}
use totorrent.Piece.Safe.{SafePieces, new_safe_pieces, get, insert, put, modify, set_as_last}
use totorrent.Piece.Safe.Table.{get-insert}
use totorrent.Piece.Safe.Listed.{IsListed, IsListed-insert_new, IsListed-insert_old}
use totorrent.FileInfo.{put_regular_pieces, last_length, new_pieces}
use totorrent.FileInfo.Pieces.{last_length_lem}

abbrev pub status_of : Bool → PieceStatus
status_of seeding = if seeding then done else idle

put_regular_pieces-IsListed :
    (n l : ℕ) (s : Sizes n l) (seeding : Bool) (count i : ℕ) (t : SafePieces)
    → length t ≡ i
    → IsListed 0 (status_of seeding) t
    → (u : SafePieces) × (put_regular_pieces count i n l seeding t ≡ ok u)
      × IsListed 0 (status_of seeding) u
      × (length u ≡ i + count)
unfolding put_regular_pieces put
put_regular_pieces-IsListed n l s seeding zero i t e h = (t, refl, h, omega arith)
put_regular_pieces-IsListed n l s seeding (suc count) i t e h =
    let (p, made, number, status, _) = calculate_new_piece-Layout i n l seeding s in
    let (listed, longer) =
      IsListed-insert_new 0 p.idx (status_of seeding) p t (omega arith) refl status h in
    let (u, rest, listed', total) =
      put_regular_pieces-IsListed n l s seeding count (suc i) (insert p.idx p t) (omega arith)
        listed in
    (u, rw made rest, listed', omega arith)

pub new_pieces-IsListed :
    (last_idx torrent n l : ℕ) (seeding : Bool)
    → Sizes n l
    → last_idx * n < torrent
    → torrent ≤ suc last_idx * n
    → (u : SafePieces) × (new_pieces last_idx torrent n l seeding ≡ ok u)
      × IsListed 0 (status_of seeding) u
      × (length u ≡ suc last_idx)
unfolding new_pieces put set_as_last modify set_as_last_piece
new_pieces-IsListed last_idx torrent n l seeding s low high =
    let (some_left, within, _) = last_length_lem last_idx torrent n s.piece_pos low high in
    let (t, e, listed, count) =
      put_regular_pieces-IsListed n l s seeding last_idx 0 new_safe_pieces
        (unfold new_safe_pieces in refl) (unfold new_safe_pieces in tt) in
    let (p, e', number, status, _) =
      calculate_new_piece-Layout last_idx (last_length torrent n) l seeding (record {
        piece_pos = some_left;
        block_pos = s.block_pos;
        small = omega (arith, s.small);
      }) in
    let has_length : (n == 0) ≡ false = ground (arith, s.piece_pos) in
    let (listed', count') =
      IsListed-insert_new 0 p.idx (status_of seeding) p t (omega arith) refl status listed in
    let there : get last_idx (insert p.idx p t) ≡ some p =
      ground (arith, get-insert p.idx last_idx p t, number) in
    let (listed'', count'') =
      IsListed-insert_old 0 last_idx (status_of seeding) (record p { is_last_piece = true }) p
        (insert p.idx p t) there refl refl listed' in
    (
      insert last_idx (record p { is_last_piece = true }) (insert p.idx p t),
      rw (e, has_length, e', modify, there) refl,
      listed'',
      omega arith,
    )
