-- ===== src/Tests/Conn.antt =====
-- Runs of the theorems about a connection at concrete inputs.
use totorrent.Conn.State.{write_peer_msg, open_channel, set_channel}
use totorrent.Conn.Requester.History.{
  Call, requests, receives, run, receive_block, receive_block-behind,
}
use totorrent.Base.{
  panic, List, ℕ, suc, ◌+◌, ◌≤◌, ◌≡◌, refl, true, false, [], ◌∷◌, ◌++◌, Bytes, none, some, ok,
  arith, replicate, ◌⊎◌,
}
use totorrent.Piece.Block.{pos}
use totorrent.Piece.Impl.{done}
use totorrent.Piece.Safe.{get}
use totorrent.Util.Slices.{did_find}
use totorrent.Tests.{a_block, a_piece, pieces_0, twenty, get_one}
use totorrent.Wire.Msg.{have, bytes}
use totorrent.Wire.RoundTrip.{have_bytes-length_four}
use totorrent.Wire.Parse.{new_peer_msg_from_buffer}
use totorrent.Conn.State.{channel_of, Conn, BlockRequester}
use totorrent.Conn.Reader.{chunk, timeout, read_peer_msg}
use totorrent.Conn.Reader.Delivery.{last, wait, read_peer_msg-delivered}
use totorrent.Conn.Reader.Partial.{read_peer_msg-short_read}
use totorrent.Wire.Build.{build_peer_request_msg}
use totorrent.Conn.Requester.{
  new_block_requester, default_was_block_received, request_block, send_request, on_block_receive,
}
use totorrent.Conn.Requester.Receives.{on_block_receive-requested}
use totorrent.Conn.Requester.Sends.{request_of, request_block_lem}
use totorrent.Conn.Queue.{request_next_piece}
use totorrent.Conn.Queue.Next.{RanOut, Took}
use totorrent.Conn.Queue.Returns.{request_next_piece_returns}
use totorrent.Conn.Handlers.{Files, default_peer_msg_func}
use totorrent.Conn.Handlers.Distinct.{HasDistinctQueue, Keeps, default_peer_msg_func-Keeps}

abbrev pub index_five : Bytes
index_five = 0 ∷ 0 ∷ 0 ∷ 5 ∷ []

abbrev pub have_five : Bytes
have_five = 0 ∷ 0 ∷ 0 ∷ 5 ∷ 4 ∷ index_five

pub have_five_bytes : bytes (have index_five) ≡ ok have_five
unfolding bytes
have_five_bytes = have_bytes-length_four index_five refl

-- A timeout while downloading, then the message with the front of the next one.
read_peer_msg-delivered_example :
    read_peer_msg (timeout true ∷ chunk (have_five ++ 0 ∷ 0 ∷ []) ∷ [])
    ≡ some (ok (have index_five), [])
read_peer_msg-delivered_example =
    read_peer_msg-delivered (have index_five) have_five
      (timeout true ∷ chunk (have_five ++ 0 ∷ 0 ∷ []) ∷ []) [] refl have_five_bytes (omega arith)
      (wait have_five (chunk (have_five ++ 0 ∷ 0 ∷ []) ∷ [])
        (last have_five (0 ∷ 0 ∷ []) (omega arith) (omega arith)))

-- The first six bytes of nine: the index is read as 0.
read_peer_msg-short_read_example :
    read_peer_msg (chunk (0 ∷ 0 ∷ 0 ∷ 5 ∷ 4 ∷ 0 ∷ []) ∷ [])
    ≡ some (new_peer_msg_from_buffer (0 ∷ 0 ∷ 0 ∷ 5 ∷ 4 ∷ 0 ∷ 0 ∷ 0 ∷ 0 ∷ []), [])
read_peer_msg-short_read_example =
    read_peer_msg-short_read (have index_five) have_five (0 ∷ 0 ∷ 0 ∷ 5 ∷ 4 ∷ 0 ∷ [])
      (0 ∷ 0 ∷ 5 ∷ []) [] tt have_five_bytes (omega arith) refl (omega arith)

abbrev pub requester : BlockRequester
requester = record { channels = []; total_num_of_blocks = 2; blocks_left = pos 2 }

abbrev pub a_conn : Conn
a_conn = record {
  pieces_to_download_queue = 0 ∷ 1 ∷ [];
  misfires = 2;
  block_requester = some requester;
  outbox = [];
  is_closed = false;
  from_downloading = false;
  to_downloading = false;
  to_weak = false;
  to_peer_id = twenty 3;
  pieces = pieces_0;
  saved_blocks = [];
  is_seeding = false;
}

-- Two waits in vain, after two misfires.
request_block_lem_example :
    (d : Conn) × (n : ℕ) × (request_block (false ∷ false ∷ []) a_block a_conn ≡ ok d)
    × (d.outbox ≡ replicate (suc n) (request_of a_block))
    × (n + 2 ≤ 3)
    × (d.misfires ≤ 4)
    × (d.misfires ≡ 4 → d.to_weak ≡ true)
request_block_lem_example =
    request_block_lem (false ∷ false ∷ []) a_block a_conn requester refl (omega arith)

get_zero : get 0 pieces_0 ≡ some (record a_piece { idx = 0; status = done })
unfolding get
get_zero = refl

a_conn_distinct : HasDistinctQueue a_conn
unfolding did_find
a_conn_distinct = (refl, (refl, tt))

-- Piece 0 is done, and piece 1 is taken.
request_next_piece_returns_example :
    (d : Conn) × (n : ℕ) × (request_next_piece a_conn ≡ ok (d, n))
    × (RanOut (0 ∷ 1 ∷ []) a_conn d n ⊎ Took (0 ∷ 1 ∷ []) a_conn d n)
request_next_piece_returns_example =
    request_next_piece_returns a_conn requester refl
      ((record a_piece { idx = 0; status = done }, get_zero), ((a_piece, get_one), tt))

abbrev pub no_files : Files
no_files = record {
  is_dir = false;
  finished_file = none;
  write_error = none;
  assemble_error = none;
}

on_block_receive-requested_example :
    (d : Conn) × (q : BlockRequester) × (s : BlockRequester) × (send_request a_block a_conn ≡ ok d)
    × (d.block_requester ≡ some q)
    × (on_block_receive a_block q ≡ ok s)
    × (s.blocks_left ≡ pos 1)
    × (on_block_receive a_block s ≡ panic)
on_block_receive-requested_example = on_block_receive-requested a_block a_conn requester refl

-- Block 0 is requested, arrives, and is requested again.
abbrev history : List Call
history = requests a_block ∷ receives a_block ∷ requests a_block ∷ []

abbrev asked_again : Conn
asked_again = record a_conn {
  block_requester = some (record {
    channels = (pos 0, open_channel) ∷ [];
    total_num_of_blocks = 2;
    blocks_left = pos 1;
  });
  outbox = request_of a_block ∷ request_of a_block ∷ [];
}

a_conn-fresh : a_conn.block_requester ≡ some (new_block_requester 2)
unfolding new_block_requester
a_conn-fresh = refl

runs_history : run history a_conn ≡ ok asked_again
unfolding run send_request receive_block on_block_receive channel_of set_channel write_peer_msg
    build_peer_request_msg
runs_history = refl

receive_block-behind_example :
    ((d : Conn) × (receive_block a_block asked_again ≡ ok d))
    × ((q : BlockRequester) × (asked_again.block_requester ≡ some q)
        × (default_was_block_received (channel_of (pos 0) q.channels) ≡ false)
        × (q.blocks_left ≡ pos 1))
receive_block-behind_example =
    receive_block-behind 2 history a_block a_conn asked_again a_conn-fresh runs_history

default_peer_msg_func-Keeps_example :
    Keeps (default_peer_msg_func no_files (have index_five) a_conn)
default_peer_msg_func-Keeps_example =
    default_peer_msg_func-Keeps no_files (have index_five) a_conn a_conn_distinct
