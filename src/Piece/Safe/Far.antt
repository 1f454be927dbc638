-- ===== src/Piece/Safe/Far.antt =====
-- Changes to the table of piece.go under which no piece is lost, and none that is done is undone.
use totorrent.Base.{
  ℕ, ◌≤◌, ◌≡◌, refl, sym, subst, ◌∙◌, ap, true, Bool-cases, inl, inr, Bytes, some, arith, length,
  ◌==◌, ==_iff, ok,
}
use totorrent.Piece.Impl.{Piece, done, is_idle}
use totorrent.Piece.Safe.{SafePieces, get, insert, mark_as_done}
use totorrent.Piece.Safe.Table.{get-insert, undone}
use totorrent.Piece.Safe.Reserve.{mark_as_done-cases, taken_by}

-- Piece `k` is as far as `p`, or further: the same piece, done if `p` is.
pub record IsAsFar (k : ℕ) (p : Piece) (t : SafePieces) : Type 0 where
  pub now : Piece
  pub there : get k t ≡ some now
  pub no_less_done : undone now ≤ undone p
  pub same_idx : now.idx ≡ p.idx
  pub same_count : length now.blocks ≡ length p.blocks

one_of_some : {a b : Piece} → some a ≡ some b → a ≡ b
one_of_some e = cc e

module _ (k : ℕ) (p : Piece) where
  pub one_piece :
      (j : ℕ) (q : Piece) {n : Piece} (t : SafePieces)
      → get j t ≡ some q
      → get k t ≡ some n
      → j ≡ k
      → q ≡ n
  one_piece j q t g h e = one_of_some (sym g ∙ ap (λ m. get m t) e ∙ h)

  pub insert-IsAsFar :
      (j : ℕ) (q r : Piece) (t : SafePieces)
      → get j t ≡ some q
      → undone r ≤ undone q
      → r.idx ≡ q.idx
      → length r.blocks ≡ length q.blocks
      → IsAsFar k p t
      → IsAsFar k p (insert j r t)
  insert-IsAsFar j q r t g u i c a = elim (Bool-cases (j == k)) [
    | inr ne ↦ record {
      now = a.now;
      there = rw (get-insert j k r t, ne) a.there;
      no_less_done = a.no_less_done;
      same_idx = a.same_idx;
      same_count = a.same_count;
    }
    | inl eq ↦
        let same : q ≡ a.now = one_piece j q t g a.there ((==_iff j k).0 eq) in
        record {
          now = r;
          there = rw (get-insert j k r t, eq) refl;
          no_less_done = omega (arith, u, ap undone same, a.no_less_done);
          same_idx = i ∙ ap (λ x. x.idx) same ∙ a.same_idx;
          same_count = c ∙ ap (λ x. length x.blocks) same ∙ a.same_count;
        }
  ]

  pub mark_as_done-IsAsFar :
      (j : ℕ) (t : SafePieces) {u : SafePieces}
      → mark_as_done j t ≡ ok u
      → IsAsFar k p t
      → IsAsFar k p u
  mark_as_done-IsAsFar j t {u} e a =
      let (q, g, i) = mark_as_done-cases j t e in
      subst (IsAsFar k p) i
        (insert-IsAsFar j q (record q { status = done }) t g (omega arith) refl refl a)

  pub taken-IsAsFar :
      (j : ℕ) (q : Piece) (peer_id : Bytes) (t : SafePieces)
      → get j t ≡ some q
      → is_idle q.status ≡ true
      → IsAsFar k p t
      → IsAsFar k p (insert j (taken_by q peer_id) t)
  taken-IsAsFar j q peer_id t g i a =
      insert-IsAsFar j q (taken_by q peer_id) t g (ground (arith, i)) refl refl a
