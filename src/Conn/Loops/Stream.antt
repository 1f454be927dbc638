-- ===== src/Conn/Loops/Stream.antt =====
-- A sequence of messages from the writer of one connection to the reader of the other (peerconn.go).
use totorrent.Base.{
  ℕ, zero, suc, ◌≤◌, ◌<◌, ◌≡◌, refl, ap, true, List, [], ◌∷◌, Bytes, some, map, arith, length, ok,
  err, ==_refl, err_peer_listen_eof,
}
use totorrent.Wire.Msg.{PeerMsg, bytes}
use totorrent.Wire.RoundTrip.{IsWellFormed}
use totorrent.Conn.Reader.{ReadEvent, eof, read_peer_msg, read_loop}
use totorrent.Conn.Reader.Delivery.{Delivery, read_peer_msg-delivered}
use totorrent.Conn.Loops.{
  WriteEvent, wrote, closed, failed, writer_loop, and_buffer, reader_loop, and_message,
  start_peer_msg_reader_loop,
}
use totorrent.Conn.Loops.Fuel.{read_peer_msg-UsesUp}

-- The network delivers the buffers one after the other, and then does `after`.
pub data Carried (after : List ReadEvent) : List Bytes → List ReadEvent → Type 0 where
  all_carried : Carried after [] after
  carry :
      (b : Bytes) (bs : List Bytes) (mid es : List ReadEvent)
      → Delivery mid b es
      → Carried after bs mid
      → Carried after (b ∷ bs) es

-- `Conn.Write` takes each buffer whole.
abbrev pub whole_writes : List Bytes → List WriteEvent
whole_writes bs = map (λ b. wrote (length b)) bs

-- The buffers are the bytes of the messages, which are well formed and within the limit of the reader.
abbrev pub Encodes : List PeerMsg → List Bytes → Type 0
Encodes [] [] = Unit {0}
Encodes [] (b ∷ bs) = ⊥
Encodes (m ∷ ms) [] = ⊥
Encodes (m ∷ ms) (b ∷ bs) = (IsWellFormed m × (bytes m ≡ ok b) × (length b ≤ 16640)) × Encodes ms bs

writer_loop-writes :
    (ms : List PeerMsg) (bs : List Bytes)
    → Encodes ms bs
    → writer_loop ms true (whole_writes bs) ≡ record { buffers = bs; end = closed }
unfolding writer_loop
writer_loop-writes [] [] h = refl
writer_loop-writes [] (b ∷ bs) h = absurd h
writer_loop-writes (m ∷ ms) [] h = absurd h
writer_loop-writes (m ∷ ms) (b ∷ bs) ((w, e, s), h) =
    rw (e, writer_loop, ==_refl (length b)) (ap (and_buffer b) (writer_loop-writes ms bs h))

read_peer_msg-eof :
    (rest : List ReadEvent) → read_peer_msg (eof ∷ rest) ≡ some (err err_peer_listen_eof, rest)
unfolding read_peer_msg read_loop
read_peer_msg-eof rest = refl

reader_loop-Carried :
    (ms : List PeerMsg) (bs : List Bytes) (fuel : ℕ) {rest es : List ReadEvent}
    → Encodes ms bs
    → length es < fuel
    → Carried (eof ∷ rest) bs es
    → reader_loop fuel es ≡ record { messages = ms; end = failed err_peer_listen_eof }
unfolding reader_loop
reader_loop-Carried ms bs zero h l c = absurd (omega arith)
reader_loop-Carried [] [] (suc fuel) {rest} h l all_carried =
    rw (read_peer_msg-eof rest, reader_loop) refl
reader_loop-Carried [] (b ∷ bs) (suc fuel) h l c = absurd h
reader_loop-Carried (m ∷ ms) [] (suc fuel) h l c = absurd h
reader_loop-Carried (m ∷ ms) (b ∷ bs) (suc fuel) {rest} {es} ((w, e, s), h) l
      (carry b' bs' mid es' d c) =
    let got = read_peer_msg-delivered m b es mid w e s d in
    let shorter : length mid < length es = rw got at (read_peer_msg-UsesUp es) in
    rw (got, reader_loop)
      (ap (and_message m)
        (reader_loop-Carried ms bs fuel {rest = rest} {es = mid} h (omega arith) c))

-- Any well-formed messages within the limit of the parser that are put on `connWriterChan`, each of
-- which `Conn.Write` takes whole: the writer writes their bytes in order, and ends where the
-- channel is closed. Where the network delivers each buffer by reads of its own, as for one
-- message, and then the end of the connection, `StartPeerMsgReaderLoop` sends on exactly these
-- messages, in order, and then the error of the end.
pub sent-received :
    (ms : List PeerMsg) (bs : List Bytes) (rest es : List ReadEvent)
    → Encodes ms bs
    → Carried (eof ∷ rest) bs es
    → (writer_loop ms true (whole_writes bs) ≡ record { buffers = bs; end = closed })
      × (start_peer_msg_reader_loop es ≡ record { messages = ms; end = failed err_peer_listen_eof })
unfolding start_peer_msg_reader_loop
sent-received ms bs rest es h c = (
  writer_loop-writes ms bs h,
  reader_loop-Carried ms bs (suc (length es)) {rest = rest} {es = es} h (omega arith) c,
)
