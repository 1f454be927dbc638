-- ===== src/Conn/Queue/Returns.antt =====
-- `RequestNextPiece` of peerconn.go returns where its queue names pieces of the table.
use totorrent.Base.{
  ℕ, ◌≡◌, refl, true, false, List, [], ◌∷◌, Bytes, some, arith, length, All, ok, Bool-cases, inl,
  inr, ◌⊎◌,
}
use totorrent.Piece.Block.{Block}
use totorrent.Piece.Impl.{Piece, is_idle, set_status, set_downloader}
use totorrent.Piece.Safe.{SafePieces, get, insert, try_to_reserve}
use totorrent.Piece.Safe.Reserve.{taken_by}
use totorrent.Piece.Safe.Table.{get-insert}
use totorrent.Conn.State.{Conn, BlockRequester, mark_downloading}
use totorrent.Conn.Requester.Sends.{sent, send_request_lem, send_request_goes}
use totorrent.Conn.Queue.{send_requests, request_piece, next_piece, request_next_piece}
use totorrent.Conn.Queue.Next.{RanOut, Took, request_next_piece_lem, busy}

abbrev pub IsPresent : SafePieces → ℕ → Type 0
IsPresent t k = (p : Piece) × (get k t ≡ some p)

send_requests_go :
    (bs : List Block) (c : Conn) (r : BlockRequester)
    → c.block_requester ≡ some r
    → (d : Conn) × (send_requests bs c ≡ ok d)
unfolding send_requests
send_requests_go [] c r e = (c, refl)
send_requests_go (b ∷ bs) c r e =
    let m = send_request_goes b c r e in
    let (_, _, (r', e')) = send_request_lem b c (sent b r c) m in
    let (d, ed) = send_requests_go bs (sent b r c) r' e' in (d, rw m ed)

try_to_reserve_present :
    (k : ℕ) (id : Bytes) (t : SafePieces)
    → IsPresent t k
    → ((p : Piece) × (try_to_reserve k id t ≡ ok (insert k (taken_by p id) t, true)))
      ⊎ (try_to_reserve k id t ≡ ok (t, false))
unfolding try_to_reserve set_status set_downloader
try_to_reserve_present k id t (p, e) = elim (Bool-cases (is_idle p.status)) [
  | inl b ↦ inl (p, ground (arith, e, b))
  | inr b ↦ inr (ground (arith, e, b))
]

request_piece_goes :
    (k : ℕ) (c : Conn) (p : Piece) (r : BlockRequester)
    → get k c.pieces ≡ some p
    → c.block_requester ≡ some r
    → (d : Conn) × (n : ℕ) × (request_piece k c ≡ ok (d, n))
unfolding request_piece
request_piece_goes k c p r e er =
    let (d, ed) = send_requests_go p.blocks c r er in
    (d, length p.blocks, rw (e, request_piece) (rw ed))

next_piece_goes :
    (queue : List ℕ) (c : Conn) (r : BlockRequester)
    → c.block_requester ≡ some r
    → All (IsPresent c.pieces) queue
    → (d : Conn) × (n : ℕ) × (next_piece queue c ≡ ok (d, n))
unfolding next_piece mark_downloading
next_piece_goes [] c r er h = (_, _, refl)
next_piece_goes (k ∷ queue) c r er h = elim (try_to_reserve_present k c.to_peer_id c.pieces h.0) [
  | inl (p, e) ↦
      let t = insert k (taken_by p c.to_peer_id) c.pieces in
      let (d, n, ed) =
        request_piece_goes k (record (busy queue c) { pieces = t }) (taken_by p c.to_peer_id) r
          (ground (arith, get-insert k k (taken_by p c.to_peer_id) c.pieces)) er in
      (d, n, rw (e, next_piece) ed)
  | inr e ↦
      let (d, n, ed) = next_piece_goes queue (busy queue c) r er h.1 in
      (d, n, rw (e, next_piece) ed)
]

-- With a requester, and a queue that names pieces of the table only, `RequestNextPiece` returns: it
-- has either found every piece of the queue taken, and marks both peers as not downloading, or has
-- reserved the first idle one and requested each of its blocks in order.
pub request_next_piece_returns :
    (c : Conn) (r : BlockRequester)
    → c.block_requester ≡ some r
    → All (IsPresent c.pieces) c.pieces_to_download_queue
    → (d : Conn) × (n : ℕ) × (request_next_piece c ≡ ok (d, n))
      × (RanOut c.pieces_to_download_queue c d n ⊎ Took c.pieces_to_download_queue c d n)
request_next_piece_returns c r er h =
    let (d, n, e) = next_piece_goes c.pieces_to_download_queue c r er h in
    let e' : request_next_piece c ≡ ok (d, n) = unfold request_next_piece in e in
    (d, n, e', request_next_piece_lem c e')
