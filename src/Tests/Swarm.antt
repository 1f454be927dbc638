-- ===== src/Tests/Swarm.antt =====
-- A client with one connection, on which a HAVE message arrives, and then a second one.
use totorrent.Base.{
  ◌≤◌, ◌≡◌, refl, inl, false, [], ◌∷◌, Bytes, Option, some, none, arith, Outcome, ok, Error,
}
use totorrent.Base.Words.{be_uint32}
use totorrent.Piece.Impl.{set_downloader, set_status}
use totorrent.Util.Slices.{int_slice_has}
use totorrent.Wire.Fields.{have_get_piece_idx}
use totorrent.Wire.Build.{build_peer_request_msg}
use totorrent.Conn.State.{mark_downloading, write_peer_msg}
use totorrent.Conn.Queue.{request_next_piece, request_piece, send_requests}
use totorrent.Conn.Requester.{send_request}
use totorrent.Piece.Safe.{get, insert, try_to_reserve, total_undone_pieces_left}
use totorrent.Piece.Safe.Far.{IsAsFar}
use totorrent.Wire.Msg.{have}
use totorrent.Conn.Handlers.{default_peer_msg_func, handle_have}
use totorrent.Swarm.{
  Swarm, connect, new_peer_connection, receive, connects, receives, Reach, here, next, start,
  Accesses,
}
use totorrent.Conn.State.{Conn}
use totorrent.Swarm.Invariant.{Inv, Reach-Inv}
use totorrent.Swarm.Shared.{default_peer_msg_func-Accesses}
use totorrent.Swarm.Progress.{Reach-IsAsFar, IsKept, Reach-IsKept}
use totorrent.Piece.Safe.Reserve.{taken_by}
use totorrent.Tests.{a_piece, pieces_0, twenty, get_one}
use totorrent.Tests.Conn.{no_files}

abbrev index_one : Bytes
index_one = 0 ∷ 0 ∷ 0 ∷ 1 ∷ []

abbrev connected : Swarm
connected = connect (twenty 3) (start pieces_0 false)

abbrev swarm_of : Option (Outcome (Swarm × Option Error)) → Swarm
swarm_of (some (ok (t, e))) = t
swarm_of _ = connected

abbrev asked_one : Swarm
asked_one = swarm_of (receive no_files 0 (have index_one) connected)

receives_one : receive no_files 0 (have index_one) connected ≡ some (ok (asked_one, none))
unfolding receive connect new_peer_connection default_peer_msg_func handle_have have_get_piece_idx
    be_uint32 int_slice_has get request_next_piece try_to_reserve request_piece insert send_requests
    set_downloader set_status send_request mark_downloading build_peer_request_msg write_peer_msg
receives_one = refl

reaches_one : Reach (start pieces_0 false) asked_one
reaches_one =
    next connected asked_one
      (next (start pieces_0 false) connected here
        (connects (twenty 3) (start pieces_0 false) connected refl))
      (receives no_files 0 (have index_one) none connected asked_one receives_one)

Reach-Inv_example : Inv asked_one
Reach-Inv_example = Reach-Inv pieces_0 false (refl, (refl, tt)) (inl refl) reaches_one

Reach-IsAsFar_example :
    IsAsFar 1 a_piece asked_one.client.pieces
    × (total_undone_pieces_left asked_one.client.pieces ≤ total_undone_pieces_left pieces_0)
Reach-IsAsFar_example =
    Reach-IsAsFar 1 a_piece (start pieces_0 false)
      (record {
        now = a_piece;
        there = get_one;
        no_less_done = omega arith;
        same_idx = refl;
        same_count = refl;
      })
      reaches_one

-- A second peer connects, and has the same piece: it is not asked for it.
abbrev both_connected : Swarm
both_connected = connect (twenty 4) asked_one

abbrev asked_once : Swarm
asked_once = swarm_of (receive no_files 1 (have index_one) both_connected)

receives_again : receive no_files 1 (have index_one) both_connected ≡ some (ok (asked_once, none))
unfolding receive connect new_peer_connection default_peer_msg_func handle_have have_get_piece_idx
    be_uint32 int_slice_has get request_next_piece try_to_reserve request_piece insert send_requests
    set_downloader set_status send_request mark_downloading build_peer_request_msg write_peer_msg
receives_again = refl

taken_one : get 1 asked_one.client.pieces ≡ some (taken_by a_piece (twenty 3))
unfolding receive connect new_peer_connection default_peer_msg_func handle_have have_get_piece_idx
    be_uint32 int_slice_has get request_next_piece try_to_reserve request_piece insert send_requests
    set_downloader set_status send_request mark_downloading build_peer_request_msg write_peer_msg
taken_one = refl

Reach-IsKept_example : IsKept 1 (twenty 3) asked_once.client.pieces
Reach-IsKept_example = Reach-IsKept 1 (taken_by a_piece (twenty 3)) asked_one taken_one refl (
    next both_connected asked_once
      (next asked_one both_connected here (connects (twenty 4) asked_one both_connected refl))
      (receives no_files 1 (have index_one) none both_connected asked_once receives_again))

-- The handler of the first HAVE.
abbrev fresh : Conn
fresh = new_peer_connection connected.client (twenty 3)

abbrev left_by : Outcome (Conn × Option Error) → Conn
left_by (ok (d, e)) = d
left_by _ = fresh

abbrev asked : Conn
asked = left_by (default_peer_msg_func no_files (have index_one) fresh)

handles_one : default_peer_msg_func no_files (have index_one) fresh ≡ ok (asked, none)
unfolding receive connect new_peer_connection default_peer_msg_func handle_have have_get_piece_idx
    be_uint32 int_slice_has get request_next_piece try_to_reserve request_piece insert send_requests
    set_downloader set_status send_request mark_downloading build_peer_request_msg write_peer_msg
handles_one = refl

default_peer_msg_func-Accesses_example : Accesses fresh asked
default_peer_msg_func-Accesses_example =
    default_peer_msg_func-Accesses no_files (have index_one) fresh asked none handles_one
