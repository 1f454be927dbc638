-- ===== src/Tests/Startup.antt =====
-- Runs of the command line and of the functions around the network.
use totorrent.Base.{
  ◌≡◌, refl, true, false, [], ◌∷◌, Bytes, none, some, replicate, ok, err, panic, err_decode_file,
  err_accept_conn_closed_conn, err_dial_peer, io_error,
}
use totorrent.Tests.{twenty}
use totorrent.Piece.Block.{pos}
use totorrent.Piece.Impl.{calculate_new_piece, mark_last_block, regular_blocks}
use totorrent.Piece.Safe.{set_as_last, modify, get, put, insert, new_safe_pieces}
use totorrent.FileInfo.{put_regular_pieces}
use totorrent.Announce.{MetaInfo, Info, Tracker, responded}
use totorrent.Network.{peer_done}
use totorrent.Network.Accept.{
  Address, accepted, listener_closed, accept_failure, Hooks, listen_for_peers, dial_peer, close,
}
use totorrent.Network.Identity.{text, number, items, unmarshal_bencode, no_peer}
use totorrent.Startup.{
  Flags, World, run, exit_code, download_mode, inspect_mode, bad_flag, inspected,
}

abbrev here : Address
here = record { ip = 127 ∷ 0 ∷ 0 ∷ 1 ∷ []; port = 6881 }

abbrev hooks : Hooks
hooks = record { on_connect = none; send_handshake = some (λ a. some io_error) }

-- One connection, of which the handshake fails, and the end of the listener.
listens :
    listen_for_peers true hooks (accepted here ∷ listener_closed ∷ [])
    ≡ ok (record {
      connections = here ∷ [];
      errors = io_error ∷ err_accept_conn_closed_conn ∷ [];
      is_waiting = false;
    })
unfolding listen_for_peers
listens = refl

-- Any other failure of the listener panics.
listens-accept_failure : listen_for_peers true hooks (accepted here ∷ accept_failure ∷ []) ≡ panic
unfolding listen_for_peers
listens-accept_failure = refl

-- The second connection does not close, and the listener stays open.
closes_one :
    close true (none ∷ some io_error ∷ none ∷ [])
    ≡ record { count = 1; closes_listener = false; error = some io_error }
unfolding close
closes_one = refl

dials_ipv6 : dial_peer false true here ≡ err err_dial_peer
unfolding dial_peer
dials_ipv6 = refl

-- A list of two peers, one without an ID.
two_peers :
    unmarshal_bencode
      (λ b. some (
        items (
          some (
            ((b'i' ∷ b'p' ∷ []), text (1 ∷ []))
            ∷ ((b'p' ∷ b'o' ∷ b'r' ∷ b't' ∷ []), number (pos 9))
            ∷ [])
          ∷ some (
              ((b'i' ∷ b'p' ∷ []), text (2 ∷ []))
              ∷ ((b'p' ∷ b'e' ∷ b'e' ∷ b'r' ∷ 0x20 ∷ b'i' ∷ b'd' ∷ []), text (twenty 3))
              ∷ ((b'p' ∷ b'o' ∷ b'r' ∷ b't' ∷ []), number (pos 8))
              ∷ [])
          ∷ [])))
      (λ s. none)
      (λ s. s)
      []
      []
    ≡ ok (
        record no_peer { ip = 1 ∷ []; port = pos 9 }
        ∷ record { ip = 2 ∷ []; port = pos 8; id = twenty 3 }
        ∷ [])
unfolding unmarshal_bencode
two_peers = refl

-- A torrent of 3 bytes, in one piece, from one peer.
abbrev torrent_info : Info
torrent_info = record { info_length = 3; piece_length = 4; pieces = twenty 7; file_lengths = [] }

abbrev metainfo : MetaInfo
metainfo = record {
  announce = b'h' ∷ b't' ∷ b't' ∷ b'p' ∷ [];
  announce_list = [];
  url_list = [];
  info_bytes = [];
  info = some torrent_info;
}

abbrev tracker : Tracker
tracker = record {
  sum = λ b. b;
  format = λ n. [];
  query = λ h url. responded 200 [];
  unmarshal = λ b body. (record body { peers = ((5 ∷ []), 6881) ∷ [] }, true);
}

abbrev world : World
world = record {
  load_from_file = λ path. some metainfo;
  temp_dir = some (3 ∷ []);
  download_dir = record { stat = none; makes = true; absolute = some (2 ∷ []) };
  client_random = some (replicate 12 1);
  hooks = hooks;
  announce_random = some (replicate 12 2);
  tracker = tracker;
  events = peer_done (5 ∷ []) ∷ [];
}

abbrev flags : Bytes → Flags
flags mode = record { torrent_file = 1 ∷ []; mode = mode; download_dir = 2 ∷ [] }

inspects : run world (flags inspect_mode) ≡ ok (inspected (metainfo, torrent_info))
unfolding run
inspects = refl

downloads : exit_code (run world (flags download_mode)) ≡ some 0
unfolding run exit_code put_regular_pieces calculate_new_piece mark_last_block regular_blocks
    set_as_last modify get put insert new_safe_pieces
downloads = refl

no_download_dir :
    exit_code (run world (record (flags download_mode) { download_dir = [] })) ≡ some 1
unfolding run exit_code
no_download_dir = refl

-- A directory that cannot be made is a panic, and a path that cannot be resolved an error.
no_directory :
    exit_code (
      run
        (record world { download_dir = record { stat = none; makes = false; absolute = none } })
        (flags download_mode))
    ≡ none
unfolding run exit_code
no_directory = refl

no_such_file :
    run (record world { load_from_file = λ path. none }) (flags download_mode) ≡ err err_decode_file
unfolding run
no_such_file = refl

other_mode : run world (flags []) ≡ ok bad_flag
unfolding run
other_mode = refl
