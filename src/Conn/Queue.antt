-- ===== src/Conn/Queue.antt =====
-- `RequestNextPiece` of peer/peerconn.go. The goroutines that request the blocks of a piece are
-- started 200 ms apart; their requests are taken in that order.
pub mod Counts
pub mod Next
pub mod Returns
use totorrent.Base.{
  ℕ, Bool, true, false, List, [], ◌∷◌, ◌++◌, Bytes, Option, none, some, length, Outcome, ok, panic,
  blocked, err, ◌>>=◌,
}
use totorrent.Piece.Block.{Block}
use totorrent.Piece.Impl.{Piece}
use totorrent.Piece.Safe.{SafePieces, get, try_to_reserve}
use totorrent.Conn.State.{Conn, mark_downloading}
use totorrent.Conn.Requester.{send_request}

unfoldable pub send_requests : List Block → Conn → Outcome Conn
send_requests [] c = ok c
send_requests (b ∷ bs) c = do sent ← send_request b c; send_requests bs sent

-- The part behind a reservation: the connection, and the number of blocks requested.
unfoldable pub request_piece : ℕ → Conn → Outcome (Conn × ℕ)
request_piece k c = elim (get k c.pieces) [
  | none ↦ panic
  | some p ↦ (do sent ← send_requests p.blocks c; ok (sent, length p.blocks))
]

-- The loop, over what is left of the queue.
unfoldable pub next_piece : List ℕ → Conn → Outcome (Conn × ℕ)
next_piece [] c = ok (mark_downloading false (record c { pieces_to_download_queue = [] }), 0)
next_piece (k ∷ queue) c =
    let busy = mark_downloading true (record c { pieces_to_download_queue = queue }) in
    elim (try_to_reserve k c.to_peer_id c.pieces) [
      | err e ↦ err e
      | panic ↦ panic
      | blocked ↦ blocked
      | ok r ↦ elim r.1 [
        | true ↦ request_piece k (record busy { pieces = r.0 })
        | false ↦ next_piece queue busy
      ]
    ]

unfoldable pub request_next_piece : Conn → Outcome (Conn × ℕ)
unfolding next_piece
request_next_piece c = next_piece c.pieces_to_download_queue c
