-- ===== src/Conn/Handlers/Distinct.antt =====
-- No piece is queued twice on a connection (peermsghandlers.go).
use totorrent.Base.{ℕ, ◌≡◌, sym, ◌∙◌, List, [], ◌∷◌, ◌++◌, subst, ok, inl, inr}
use totorrent.Util.Slices.Merge.{
  IsDistinct, IsDistinct-append_one, int_slice_has-did_find, int_slice_unique_merge_slices_lem,
}
use totorrent.Conn.State.{Conn}
use totorrent.Conn.Queue.{request_next_piece}
use totorrent.Conn.Queue.Next.{request_next_piece_lem}
use totorrent.Wire.Msg.{PeerMsg}
use totorrent.Conn.State.{write_peer_msg}
use totorrent.Conn.Handlers.Stable.{IsStable, default_peer_msg_func-Stable}
use totorrent.Conn.Handlers.Gives.{Gives}
use totorrent.Conn.Handlers.{Files, Handled, default_peer_msg_func}

abbrev pub HasDistinctQueue : Conn → Type 0
HasDistinctQueue c = IsDistinct c.pieces_to_download_queue

-- What a handler returns, if it returns, has a queue without repetitions.
abbrev pub Keeps : Handled → Type 0
Keeps = Gives HasDistinctQueue

IsDistinct-suffix : (xs ys : List ℕ) → IsDistinct (xs ++ ys) → IsDistinct ys
IsDistinct-suffix [] ys d = d
IsDistinct-suffix (x ∷ xs) ys d = IsDistinct-suffix xs ys d.1

request_next_piece-Distinct :
    (c : Conn) {d : Conn} {n : ℕ}
    → HasDistinctQueue c
    → request_next_piece c ≡ ok (d, n)
    → HasDistinctQueue d
request_next_piece-Distinct c {d} {n} h e = elim (request_next_piece_lem c e) [
  | inl o ↦ rw o.no_queue tt
  | inr o ↦ (IsDistinct-suffix o.skipped _ (subst IsDistinct o.place h)).1
]

HasDistinctQueue-IsStable : IsStable HasDistinctQueue
unfolding write_peer_msg
HasDistinctQueue-IsStable = record {
  writes = λ m c h. h;
  closes = λ c h. h;
  requester = λ r c h. h;
  saves = λ b c h. h;
  queues = λ k c new h.
      IsDistinct-append_one c.pieces_to_download_queue k
        (sym (int_slice_has-did_find c.pieces_to_download_queue k) ∙ new) h;
  merges = λ is c h. (int_slice_unique_merge_slices_lem c.pieces_to_download_queue is h).0;
  requests = λ c d n e h. request_next_piece-Distinct c h e;
  reads = λ is_dir file k begin l c u o e h. h;
  finishes = λ k c t e h. h;
  stops = λ c h. h;
  seeds = λ c z h. h;
}

-- A handler that no other one of the connection runs beside: whatever message arrives, well formed
-- or not, and with whatever errors of the file system, a connection on which no piece is queued
-- twice is left so, if the handler returns.
pub default_peer_msg_func-Keeps :
    (fs : Files) (m : PeerMsg) (c : Conn)
    → HasDistinctQueue c
    → Keeps (default_peer_msg_func fs m c)
default_peer_msg_func-Keeps fs m c h =
    default_peer_msg_func-Stable HasDistinctQueue HasDistinctQueue-IsStable fs m c h
