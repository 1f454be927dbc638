-- ===== src/Tests/Flow.antt =====
-- Runs of the theorems about the loops of a connection, the completion of pieces, and the finished file at
-- concrete inputs.
use totorrent.Base.{
  ℕ, ◌<◌, ◌≡◌, refl, true, false, List, [], ◌∷◌, ◌+◌, ◌*◌, Bytes, none, some, map, ok, arith,
  err_peer_listen_eof,
}
use totorrent.Base.Words.{read_at, be_uint32}
use totorrent.Piece.Block.{Block, new_block, pos}
use totorrent.Piece.Impl.{downloading, done}
use totorrent.Piece.Safe.{SafePieces, get}
use totorrent.Piece.Safe.Refinement.{answers, answers_refine, seen, spec_run, ledger_of}
use totorrent.Tests.{a_piece, pieces_0, calls}
use totorrent.Tests.Conn.{index_five, have_five, have_five_bytes, a_conn, no_files}
use totorrent.Wire.Msg.{PeerMsg, have, choked, piece, bytes}
use totorrent.Wire.Fields.{piece_get_block}
use totorrent.Conn.State.{Conn, BlockRequester, open_channel, channel_of, int_eq}
use totorrent.Conn.Reader.{ReadEvent, chunk, eof, timeout}
use totorrent.Conn.Reader.Delivery.{last, wait}
use totorrent.Conn.Loops.{writer_loop, start_peer_msg_reader_loop, closed, failed}
use totorrent.Conn.Loops.Fuel.{Loops}
use totorrent.Conn.Loops.Stream.{whole_writes, all_carried, carry, sent-received}
use totorrent.Conn.Handlers.{handle_all}
use totorrent.Conn.Handlers.Arriving.{saved_all}
use totorrent.Conn.Handlers.Complete.{Completed, handle_all-completes}
use totorrent.FileInfo.{new_pieces}
use totorrent.FileInfo.Pieces.{IsCut, new_pieces-IsCut}
use totorrent.FileInfo.Assemble.{File, file_of, assemble_blocks}
use totorrent.FileInfo.Assemble.Whole.{blocks_of, assemble_blocks_whole}
use mathlib.Core.List.{Permᴰ}

abbrev choked_bytes : Bytes
choked_bytes = 0 ∷ 0 ∷ 0 ∷ 1 ∷ 0 ∷ []

choked-bytes : bytes (choked []) ≡ ok choked_bytes
unfolding bytes
choked-bytes = refl

abbrev two_messages : List PeerMsg
two_messages = have index_five ∷ choked [] ∷ []

abbrev two_reads : List ReadEvent
two_reads = timeout true ∷ chunk have_five ∷ chunk choked_bytes ∷ eof ∷ []

sent-received_example :
    (writer_loop two_messages true (whole_writes (have_five ∷ choked_bytes ∷ []))
      ≡ record { buffers = have_five ∷ choked_bytes ∷ []; end = closed })
    × (start_peer_msg_reader_loop two_reads
        ≡ record { messages = two_messages; end = failed err_peer_listen_eof })
sent-received_example =
    sent-received two_messages (have_five ∷ choked_bytes ∷ []) [] two_reads
      ((refl, have_five_bytes, omega arith), ((refl, choked-bytes, omega arith), tt))
      (carry have_five (choked_bytes ∷ []) (chunk choked_bytes ∷ eof ∷ []) two_reads
        (wait have_five (chunk have_five ∷ chunk choked_bytes ∷ eof ∷ [])
          (last have_five [] (omega arith) (omega arith)))
        (carry choked_bytes [] (eof ∷ []) (chunk choked_bytes ∷ eof ∷ [])
          (last choked_bytes [] (omega arith) (omega arith)) all_carried))

answers_refine_example : seen (answers pieces_0 calls) ≡ spec_run (ledger_of pieces_0) calls
answers_refine_example = answers_refine pieces_0 calls

-- Piece 1 is being downloaded, and both of its blocks are requested.
abbrev pieces_busy : SafePieces
pieces_busy =
    (0, record a_piece { idx = 0; status = done })
    ∷ (1, record a_piece { status = downloading })
    ∷ []

abbrev busy_requester : BlockRequester
busy_requester = record {
  channels = (pos 0, open_channel) ∷ (pos 1, open_channel) ∷ [];
  total_num_of_blocks = 2;
  blocks_left = pos 2;
}

abbrev busy_conn : Conn
busy_conn = record a_conn {
  pieces_to_download_queue = [];
  block_requester = some busy_requester;
  pieces = pieces_busy;
}

-- The second block comes first.
abbrev payload_1 : Bytes
payload_1 = 0 ∷ 0 ∷ 0 ∷ 1 ∷ 0 ∷ 0 ∷ 0 ∷ 2 ∷ 7 ∷ 8 ∷ []

abbrev payload_0 : Bytes
payload_0 = 0 ∷ 0 ∷ 0 ∷ 1 ∷ 0 ∷ 0 ∷ 0 ∷ 0 ∷ 5 ∷ 6 ∷ []

abbrev two_blocks : List Block
two_blocks = new_block (pos 1) 1 2 2 (7 ∷ 8 ∷ []) ∷ new_block (pos 0) 1 0 2 (5 ∷ 6 ∷ []) ∷ []

got_1 : piece_get_block payload_1 ≡ ok (new_block (pos 1) 1 2 2 (7 ∷ 8 ∷ []))
unfolding piece_get_block new_block read_at be_uint32
got_1 = refl

got_0 : piece_get_block payload_0 ≡ ok (new_block (pos 0) 1 0 2 (5 ∷ 6 ∷ []))
unfolding piece_get_block new_block read_at be_uint32
got_0 = refl

open_1 :
    channel_of (new_block (pos 1) 1 2 2 (7 ∷ 8 ∷ [])).idx busy_requester.channels
    ≡ some open_channel
unfolding channel_of new_block
open_1 = refl

open_0 :
    channel_of (new_block (pos 0) 1 0 2 (5 ∷ 6 ∷ [])).idx busy_requester.channels
    ≡ some open_channel
unfolding channel_of new_block
open_0 = refl

others :
    int_eq (new_block (pos 1) 1 2 2 (7 ∷ 8 ∷ [])).idx (new_block (pos 0) 1 0 2 (5 ∷ 6 ∷ [])).idx
    ≡ false
unfolding new_block
others = refl

of_1 : (b : Block) → b ≡ new_block (pos 1) 1 2 2 (7 ∷ 8 ∷ []) → b.piece_idx ≡ 1
unfolding new_block
of_1 b e = rw e refl

of_0 : (b : Block) → b ≡ new_block (pos 0) 1 0 2 (5 ∷ 6 ∷ []) → b.piece_idx ≡ 1
unfolding new_block
of_0 b e = rw e refl

get_busy : get 1 pieces_busy ≡ some (record a_piece { status = downloading })
unfolding get
get_busy = refl

handle_all-completes_example :
    (d : Conn) × (handle_all no_files (map piece (payload_1 ∷ payload_0 ∷ [])) busy_conn
      ≡ ok (d, []))
    × Completed 1 (record a_piece { status = downloading }) (saved_all two_blocks []) busy_conn d
handle_all-completes_example =
    handle_all-completes no_files 1 refl refl (record a_piece { status = downloading })
      (payload_1 ∷ payload_0 ∷ []) two_blocks busy_conn busy_requester refl refl (omega arith)
      ((got_1, of_1 _ refl, open_1, (others, tt), (got_0, of_0 _ refl, open_0, tt, tt))) get_busy tt

abbrev five_bytes : Bytes
five_bytes = 1 ∷ 2 ∷ 3 ∷ 4 ∷ 5 ∷ []

-- The files of three blocks, the first two in the wrong order.
abbrev swapped_files : List File
swapped_files = elim (map file_of (blocks_of five_bytes 2 2 0 3)) [
  | a ∷ b ∷ fs ↦ b ∷ a ∷ fs
  | fs ↦ fs
]

assemble_blocks_whole_example :
    assemble_blocks false (record {
      blocks = some swapped_files;
      finished_file = none;
      has_working_directory = true;
      can_create = true;
    })
    ≡ ok (record { finished = some five_bytes; left = []; error = none })
assemble_blocks_whole_example =
    assemble_blocks_whole five_bytes 2 2 3 swapped_files (omega arith) (omega arith) (omega arith)
      (Permᴰ.swap refl refl)

-- A torrent of 11 bytes, in pieces of 4 and blocks of 2.
new_pieces-IsCut_example :
    (u : SafePieces) × (new_pieces 2 11 4 2 false ≡ ok u)
    × ((k : ℕ) → k < 2 → IsCut k 4 2 false false u)
    × IsCut 2 3 2 false true u
    × (2 * 4 + 3 ≡ 11)
new_pieces-IsCut_example =
    new_pieces-IsCut 2 11 4 2 false
      (record { piece_pos = omega arith; block_pos = omega arith; small = omega arith })
      (omega arith) (omega arith)
