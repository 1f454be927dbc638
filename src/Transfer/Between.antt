-- ===== src/Transfer/Between.antt =====
-- What a download looks like between two rounds: all blocks of a piece are requested, and the pieces behind it are
-- queued (peerconn.go, blockrequester.go).
use totorrent.Base.{
  ℕ, zero, suc, ◌<◌, ◌≡◌, refl, ap, subst, true, false, List, [], ◌++◌, Bytes, some, map, length,
  ◌==◌, if◌then◌else◌, arith, ok,
}
use totorrent.Util.Slices.Range.{range}
use totorrent.Piece.Block.{Block, pos}
use totorrent.Piece.Impl.{Piece, idle, is_done, set_status, set_downloader}
use totorrent.Piece.Safe.{SafePieces, get, insert, try_to_reserve, total_undone_pieces_left}
use totorrent.Piece.Safe.Table.{get-insert, total_undone-insert, undone}
use totorrent.Piece.Safe.Reserve.{taken_by}
use totorrent.Conn.State.{Conn, BlockRequester, mark_downloading}
use totorrent.Conn.Requester.Sends.{request_of}
use totorrent.Conn.Queue.{request_piece, next_piece, request_next_piece}
use totorrent.Conn.Queue.Next.{busy}
use totorrent.Transfer.Table.{AreFrom}
use totorrent.Transfer.Asked.{asked, open_all, send_requests-asked, AreOpen, open_all-AreOpen}

-- Piece `k` is there, with `m` blocks of `l` bytes, and nobody has taken it.
pub record IsFree (k m l : ℕ) (t : SafePieces) : Type 0 where
  pub piece : Piece
  pub there : get k t ≡ some piece
  pub is_free : piece.status ≡ idle
  pub count : length piece.blocks ≡ m
  pub cut : AreFrom k l 0 piece.blocks

-- The pieces from `k` on, `count` of them.
abbrev pub AreFree : ℕ → ℕ → ℕ → ℕ → SafePieces → Type 0
AreFree k zero m l t = Unit {0}
AreFree k (suc count) m l t = IsFree k m l t × AreFree (suc k) count m l t

-- All blocks of piece `k` are requested, and nothing else; `rest` pieces are queued behind it.
pub record IsDownloading (k rest m l : ℕ) (c : Conn) : Type 0 where
  pub requester : BlockRequester
  pub has_requester : c.block_requester ≡ some requester
  pub blocks_left : requester.blocks_left ≡ pos m
  pub total : requester.total_num_of_blocks ≡ m
  pub awaited : AreOpen 0 m requester.channels
  pub blocks : List Block
  pub wrote : c.outbox ≡ map request_of blocks
  pub count : length blocks ≡ m
  pub cut : AreFrom k l 0 blocks
  pub queue : c.pieces_to_download_queue ≡ range (suc k) rest
  pub piece : Piece
  pub there : get k c.pieces ≡ some piece
  pub not_done : is_done piece.status ≡ false
  pub later : AreFree (suc k) rest m l c.pieces
  pub left : total_undone_pieces_left c.pieces ≡ suc rest

pub AreFree-get :
    (j k count m l : ℕ) (q : Piece) (t u : SafePieces)
    → j < k
    → ((i : ℕ) → get i u ≡ (if j == i then some q else get i t))
    → AreFree k count m l t
    → AreFree k count m l u
AreFree-get j k zero m l q t u h lookup a = tt
AreFree-get j k (suc count) m l q t u h lookup (f, a) = (
  record {
    piece = f.piece;
    there = ground (arith, lookup k, f.there);
    is_free = f.is_free;
    count = f.count;
    cut = f.cut;
  },
  AreFree-get j (suc k) count m l q t u (omega arith) lookup a,
)

reserve :
    (k : ℕ) (id : Bytes) (p : Piece) (t : SafePieces)
    → get k t ≡ some p
    → p.status ≡ idle
    → try_to_reserve k id t ≡ ok (insert k (taken_by p id) t, true)
unfolding try_to_reserve set_status set_downloader
reserve k id p t e free = rw (try_to_reserve, e, free) refl

-- The first piece of a queue of free pieces is taken.
pub request_next_piece-IsDownloading :
    (k rest m l : ℕ) (c : Conn) (r : BlockRequester)
    → c.block_requester ≡ some r
    → r.blocks_left ≡ pos m
    → r.total_num_of_blocks ≡ m
    → c.outbox ≡ []
    → c.pieces_to_download_queue ≡ range k (suc rest)
    → AreFree k (suc rest) m l c.pieces
    → total_undone_pieces_left c.pieces ≡ suc rest
    → (d : Conn) × (request_next_piece c ≡ ok (d, m))
      × (d.saved_blocks ≡ c.saved_blocks)
      × IsDownloading k rest m l d
unfolding request_next_piece next_piece request_piece mark_downloading
request_next_piece-IsDownloading k rest m l c r er left total no_outbox queue (f, fs) undone_left =
    let p = f.piece in
    let q = taken_by p c.to_peer_id in
    let t = insert k q c.pieces in
    let mid : Conn = record (busy (range (suc k) rest) c) { pieces = t } in
    let now : get k t ≡ some q = ground (arith, get-insert k k q c.pieces) in
    let d = asked p.blocks r mid in
    let is_undone : undone p ≡ 1 = rw f.is_free refl in
    (
      d,
      rw
          (
            queue,
            next_piece,
            reserve k c.to_peer_id p c.pieces f.there f.is_free,
            request_piece,
            now,
            send_requests-asked p.blocks mid r er,
            f.count,
          )
          refl,
      refl,
      record {
        requester = record r { channels = open_all p.blocks r.channels };
        has_requester = refl;
        blocks_left = left;
        total = total;
        awaited =
            subst (λ n. AreOpen 0 n (open_all p.blocks r.channels)) f.count
              (open_all-AreOpen k l 0 p.blocks r.channels f.cut);
        blocks = p.blocks;
        wrote = ap (λ o. o ++ map request_of p.blocks) no_outbox;
        count = f.count;
        cut = f.cut;
        queue = refl;
        piece = q;
        there = now;
        not_done = refl;
        later =
            AreFree-get k (suc k) rest m l q c.pieces t (omega arith)
              (λ i. get-insert k i q c.pieces) fs;
        left = omega (arith, total_undone-insert k p q c.pieces f.there, is_undone);
      },
    )
