-- ===== src/Conn/Reader/Delivery.antt =====
-- A message that arrives whole, or in full buffers, is read (peerconn.go).
use totorrent.Base.{
  ℕ, ◌+◌, ◌≤◌, ◌<◌, ◌≡◌, refl, sym, ◌∙◌, ap, inl, inr, true, List, [], ◌∷◌, ◌++◌, Bytes, some,
  arith, length, take, drop, replicate, ok, length-append, take-append_length,
}
use totorrent.Wire.Msg.{PeerMsg, bytes}
use totorrent.Wire.Parse.{new_peer_msg_from_buffer, parse_raw_peer_msg_length}
use totorrent.Wire.RoundTrip.{IsWellFormed, new_peer_msg_from_buffer-bytes}
use totorrent.Conn.Reader.{
  ReadEvent, chunk, timeout, buffer_size, fill, remaining_msg_len, read_loop, read_peer_msg,
}
use totorrent.Conn.Reader.Step.{drop-all, length-fill, read_loop_done, read_loop_more}
use totorrent.Conn.Reader.Header.{well_formed_tells_length}
use mathlib.Core.List.{append-nil, append_assoc}

-- The ways in which the bytes `b` can arrive so that the reader gets them: a full buffer at a time,
-- and at the end what is left, with any bytes behind it in the same read. Timeouts in between are
-- skipped while the peer is downloading. `after` is what the network returns later.
pub data Delivery (after : List ReadEvent) : Bytes → List ReadEvent → Type 0 where
  last :
      (b extra : Bytes)
      → 0 < length b
      → length (b ++ extra) ≤ buffer_size
      → Delivery after b (chunk (b ++ extra) ∷ after)
  full :
      (b c b' : Bytes) (es : List ReadEvent)
      → length c ≡ buffer_size
      → 0 < length b'
      → b ≡ c ++ b'
      → Delivery after b' es
      → Delivery after b (chunk c ∷ es)
  wait :
      (b : Bytes) (es : List ReadEvent) → Delivery after b es → Delivery after b (timeout true ∷ es)

length-full : (c buf : Bytes) → length c ≡ buffer_size → length buf ≡ buffer_size → fill c buf ≡ c
length-full c buf hc hb = rw (drop-all buf (length c) (omega arith)) (append-nil c)

take-fill : (b extra buf : Bytes) → take (length b) (fill (b ++ extra) buf) ≡ b
take-fill b extra buf =
    rw (append_assoc b extra (drop (length (b ++ extra)) buf)) (take-append_length b _)

module _ (buf total b : Bytes) (hb : length buf ≡ buffer_size) where
  -- The last read, whether the length is known or read from it.
  last_chunk :
      (extra : Bytes) (es : List ReadEvent) (remaining : ℕ)
      → 0 < length b
      → length (b ++ extra) ≤ buffer_size
      → remaining_msg_len remaining (fill (b ++ extra) buf) ≡ ok (length b)
      → read_loop (chunk (b ++ extra) ∷ es) buf total remaining
        ≡ some (new_peer_msg_from_buffer (total ++ b), es)
  last_chunk extra es remaining h fits e =
      read_loop_done (b ++ extra) buf total es remaining (length b)
        (omega (arith, length-append b extra)) e
        (omega (arith, length-append b extra, length-fill (b ++ extra) buf (omega (arith, hb)), hb))
      ∙ ap (λ s. some (new_peer_msg_from_buffer (total ++ s), es)) (take-fill b extra buf)

  full_chunk :
      (c b' : Bytes) (es : List ReadEvent) (remaining : ℕ)
      → length c ≡ buffer_size
      → 0 < length b'
      → b ≡ c ++ b'
      → remaining_msg_len remaining c ≡ ok (length b)
      → read_loop (chunk c ∷ es) buf total remaining ≡ read_loop es c (total ++ c) (length b')
  full_chunk c b' es remaining hc h split e =
      let whole = length-full c buf hc hb in
      let size : length b ≡ length c + length b' = ap length split ∙ length-append c b' in
      read_loop_more c buf total es remaining (length b) (omega (arith, hc)) (rw whole e)
        (rw whole (omega (arith, size)))
      ∙ rw (whole, size) (ap (read_loop es c (total ++ c)) (omega arith))

known_length : (n : ℕ) (buf : Bytes) → 0 < n → remaining_msg_len n buf ≡ ok n
unfolding remaining_msg_len
known_length n buf h = ground arith

unknown_length : (buf : Bytes) → remaining_msg_len 0 buf ≡ parse_raw_peer_msg_length buf
unfolding remaining_msg_len
unknown_length buf = refl

read_loop_wait :
    (es : List ReadEvent) (buf total : Bytes) (n : ℕ)
    → read_loop (timeout true ∷ es) buf total n ≡ read_loop es buf total n
unfolding read_loop
read_loop_wait es buf total n = refl

-- What is left of a message is put behind what was read before.
rest_delivered :
    {after : List ReadEvent} (buf total : Bytes) {b : Bytes} {es : List ReadEvent}
    → length buf ≡ buffer_size
    → Delivery after b es
    → read_loop es buf total (length b) ≡ some (new_peer_msg_from_buffer (total ++ b), after)
rest_delivered {after} buf total hb (last b extra h fits) =
    last_chunk buf total b hb extra after (length b) h fits (known_length (length b) _ h)
rest_delivered {after} buf total hb (full b c b' es hc h split d) =
    full_chunk buf total b hb c b' es (length b) hc h split
      (known_length (length b) c (omega (arith, ap length split, length-append c b', hc)))
    ∙ rest_delivered c (total ++ c) hc d
    ∙ ap (λ s. some (new_peer_msg_from_buffer s, after))
        (append_assoc total c b' ∙ ap (◌++◌ total) (sym split))
rest_delivered buf total hb (wait b es d) =
    read_loop_wait es buf total (length b) ∙ rest_delivered buf total hb d

parsed :
    (m : PeerMsg) (b : Bytes) → IsWellFormed m → bytes m ≡ ok b → new_peer_msg_from_buffer b ≡ ok m
parsed m b w e = let (b', e', p) = new_peer_msg_from_buffer-bytes m w in ground (arith, e', p, e)

first_delivered :
    (m : PeerMsg) {after : List ReadEvent} (buf : Bytes) {b : Bytes} {es : List ReadEvent}
    → IsWellFormed m
    → bytes m ≡ ok b
    → length b ≤ 16640
    → length buf ≡ buffer_size
    → Delivery after b es
    → read_loop es buf [] 0 ≡ some (ok m, after)
first_delivered m {after} buf w e small hb (last b extra h fits) =
    last_chunk buf [] b hb extra after 0 h fits (
      rw (append_assoc b extra (drop (length (b ++ extra)) buf)) (
        unknown_length _
        ∙ well_formed_tells_length m b b [] _ w e small (sym (append-nil b)) (inl refl)))
    ∙ ap (λ r. some (r, after)) (parsed m b w e)
first_delivered m {after} buf w e small hb (full b c b' es hc h split d) =
    full_chunk buf [] b hb c b' es 0 hc h split (
      unknown_length c
      ∙ rw append-nil at
          (well_formed_tells_length m b c b' [] w e small split (inr (omega (arith, hc)))))
    ∙ rest_delivered c c hc d
    ∙ ap (λ s. some (s, after)) (ap new_peer_msg_from_buffer (sym split) ∙ parsed m b w e)
first_delivered m buf w e small hb (wait b es d) =
    read_loop_wait es buf [] 0 ∙ first_delivered m buf w e small hb d

-- A well-formed message within the limit of the parser, delivered as full buffers and a last read
-- that may carry more behind it, with timeouts while downloading between them: `ReadPeerMsg`
-- returns the message that was written, and uses up exactly the reads that carried it.
pub read_peer_msg-delivered :
    (m : PeerMsg) (b : Bytes) (es after : List ReadEvent)
    → IsWellFormed m
    → bytes m ≡ ok b
    → length b ≤ 16640
    → Delivery after b es
    → read_peer_msg es ≡ some (ok m, after)
unfolding read_peer_msg
read_peer_msg-delivered m b es after w e small d =
    first_delivered m (replicate buffer_size 0) w e small refl d
