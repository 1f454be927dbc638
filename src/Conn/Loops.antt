-- ===== src/Conn/Loops.antt =====
-- The loops of a connection in peer/peerconn.go: the goroutine of `NewPeerConnection`, which writes the
-- messages of `connWriterChan`, and `StartPeerMsgReaderLoop`, which reads them.
pub mod Fuel
pub mod Stream
use totorrent.Base.{
  ℕ, zero, suc, Bool, true, false, List, [], ◌∷◌, ◌++◌, Bytes, Option, none, some, length, ◌==◌,
  if◌then◌else◌, Outcome, ok, err, panic, blocked, Error, err_peerconn_write,
  err_peerconn_write_closed_conn,
}
use totorrent.Wire.Msg.{PeerMsg, bytes}
use totorrent.Conn.Reader.{ReadEvent, read_peer_msg}

-- What `Conn.Write` does: it takes a number of bytes, or fails, with "broken pipe" in its text or without.
pub data WriteEvent : Type 0 where
  wrote : ℕ → WriteEvent
  broken_pipe : WriteEvent
  write_failure : WriteEvent

-- How a loop ends. `waiting`: it has not, and waits for the channel or the network.
pub data LoopEnd : Type 0 where
  waiting : LoopEnd
  closed : LoopEnd
  failed : Error → LoopEnd
  crashed : LoopEnd
  stuck : LoopEnd
  out_of_fuel : LoopEnd

-- The buffers handed to `Conn.Write` that it took whole, and the end.
pub record Written : Type 0 where
  pub buffers : List Bytes
  pub end : LoopEnd

abbrev pub and_buffer : Bytes → Written → Written
and_buffer b w = record { buffers = b ∷ w.buffers; end = w.end }

abbrev pub ended : LoopEnd → Written
ended e = record { buffers = []; end = e }

-- The messages that come through the channel, whether it is closed behind them, and what the writes do. A
-- write that takes a part of the bytes panics.
unfoldable pub writer_loop : List PeerMsg → Bool → List WriteEvent → Written
writer_loop [] is_closed ws = if is_closed then ended closed else ended waiting
writer_loop (m ∷ ms) is_closed ws = elim (bytes m) [
  | err e ↦ ended (failed err_peerconn_write)
  | panic ↦ ended crashed
  | blocked ↦ ended stuck
  | ok b ↦ elim ws [
    | [] ↦ ended waiting
    | broken_pipe ∷ ws' ↦ ended (failed err_peerconn_write_closed_conn)
    | write_failure ∷ ws' ↦ ended (failed err_peerconn_write)
    | wrote n ∷ ws' ↦
        let rest = and_buffer b (writer_loop ms is_closed ws') in
        if n == length b then rest else ended crashed
  ]
]

-- The messages sent to `peerMsgChan`, and the end.
pub record Received : Type 0 where
  pub messages : List PeerMsg
  pub end : LoopEnd

abbrev pub and_message : PeerMsg → Received → Received
and_message m r = record { messages = m ∷ r.messages; end = r.end }

abbrev pub received_nothing : LoopEnd → Received
received_nothing e = record { messages = []; end = e }

-- The loop on fuel.
unfoldable pub reader_loop : ℕ → List ReadEvent → Received
reader_loop zero es = received_nothing out_of_fuel
reader_loop (suc fuel) es = elim (read_peer_msg es) [
  | none ↦ received_nothing waiting
  | some (err e, rest) ↦ received_nothing (failed e)
  | some (panic, rest) ↦ received_nothing crashed
  | some (blocked, rest) ↦ received_nothing stuck
  | some (ok m, rest) ↦ and_message m (reader_loop fuel rest)
]

-- Each message takes a read, so one round for each read and one more are enough.
unfoldable pub start_peer_msg_reader_loop : List ReadEvent → Received
unfolding reader_loop
start_peer_msg_reader_loop es = reader_loop (suc (length es)) es
