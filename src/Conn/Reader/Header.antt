-- ===== src/Conn/Reader/Header.antt =====
-- The first five bytes of a written message tell its length (peermsg.go).
use totorrent.Base.{
  ℕ, ◌+◌, ◌≤◌, ◌<◌, ◌≡◌, ◌⊎◌, inl, inr, [], ◌∷◌, ◌++◌, Bytes, arith, length, ap, sym, ◌∙◌,
  length-append, ok, true,
}
use totorrent.Base.Words.{put_uint32}
use totorrent.Wire.Msg.{PeerMsg, bytes, handshake}
use totorrent.Wire.Build.{build_peer_handshake_msg}
use totorrent.Wire.Handshake.{handshake_payload, is_peer_handshake_msg_built}
use totorrent.Wire.RoundTrip.{IsWellFormed}
use mathlib.Core.List.{append-nil}
use totorrent.Wire.Parse.{parse_raw_peer_msg_length, is_peer_handshake_msg}
use totorrent.Wire.Frame.{limited}
use totorrent.Wire.Length.{
  IsFramed, bytes-IsFrame, parse_raw-header, length-frame, parse_raw_peer_msg_length-bytes,
}

limited_ok : (n : ℕ) → n ≤ 16640 → limited n ≡ ok n
limited_ok n h = ground arith

IsFramed-front :
    (id : ℕ) (p front back rest : Bytes)
    → id < 8
    → put_uint32 (length p + 1) ++ id ∷ p ≡ front ++ back
    → 5 ≤ length front
    → length p + 5 ≤ 16640
    → parse_raw_peer_msg_length (front ++ rest) ≡ ok (length p + 1 + 4)
IsFramed-front id p [] back rest hid e h fits = absurd (omega arith)
IsFramed-front id p (a ∷ []) back rest hid e h fits = absurd (omega arith)
IsFramed-front id p (a ∷ b ∷ []) back rest hid e h fits = absurd (omega arith)
IsFramed-front id p (a ∷ b ∷ c ∷ []) back rest hid e h fits = absurd (omega arith)
IsFramed-front id p (a ∷ b ∷ c ∷ d ∷ []) back rest hid e h fits = absurd (omega arith)
IsFramed-front id p (a ∷ b ∷ c ∷ d ∷ i ∷ front) back rest hid e h fits =
    ap parse_raw_peer_msg_length same
    ∙ parse_raw-header (length p + 1) id (front ++ rest) (omega arith) hid
    ∙ limited_ok (length p + 1 + 4) (omega arith)
  where
    same : a ∷ b ∷ c ∷ d ∷ i ∷ (front ++ rest) ≡ put_uint32 (length p + 1) ++ id ∷ (front ++ rest)
    same = unfold put_uint32 in ground (arith, e)

-- The first five bytes of a framed message are enough.
pub front_tells_length :
    (m : PeerMsg) (b front back rest : Bytes)
    → IsFramed m
    → bytes m ≡ ok b
    → length b ≤ 16640
    → b ≡ front ++ back
    → 5 ≤ length front
    → parse_raw_peer_msg_length (front ++ rest) ≡ ok (length b)
front_tells_length m b front back rest f e fits split h = elim (bytes-IsFrame m b f e) [
  | inl (id, p, hid, eb) ↦
      let n : length b ≡ length p + 1 + 4 = ap length eb ∙ length-frame (length p + 1) id p in
      IsFramed-front id p front back rest hid (sym eb ∙ split) h (omega (arith, n)) ∙ ap ok (sym n)
  | inr eb ↦ absurd (omega (arith, ap length eb, ap length split, length-append front back))
]

handshake_shape :
    (p b peer_id infohash : Bytes)
    → handshake p ≡ build_peer_handshake_msg peer_id infohash
    → bytes (handshake p) ≡ ok b
    → b ≡ handshake_payload peer_id infohash
unfolding bytes build_peer_handshake_msg
handshake_shape p b peer_id infohash e eb = ground (arith, e, eb)

length-handshake :
    (p b : Bytes) → IsWellFormed (handshake p) → bytes (handshake p) ≡ ok b → length b ≡ 68
length-handshake p b (peer_id, infohash, hp, hi, e) eb =
    omega
      (arith, ap length (handshake_shape p b peer_id infohash e eb), length-append infohash peer_id)

whole_handshake :
    (p b rest : Bytes)
    → IsWellFormed (handshake p)
    → bytes (handshake p) ≡ ok b
    → parse_raw_peer_msg_length (b ++ rest) ≡ ok (length b)
whole_handshake p b rest (peer_id, infohash, hp, hi, e) eb =
    let shape = handshake_shape p b peer_id infohash e eb in
    let known : is_peer_handshake_msg (b ++ rest) ≡ true =
      rw shape (is_peer_handshake_msg_built peer_id infohash hp hi rest) in
    rw (length-handshake p b (peer_id, infohash, hp, hi, e) eb)
      (unfold parse_raw_peer_msg_length in rw known)

framed_tells_length :
    (m : PeerMsg) (b front back rest : Bytes)
    → IsFramed m
    → bytes m ≡ ok b
    → length b ≤ 16640
    → b ≡ front ++ back
    → (back ≡ []) ⊎ (1024 ≤ length front)
    → parse_raw_peer_msg_length (front ++ rest) ≡ ok (length b)
framed_tells_length m b front back rest f e fits split (inl none_left) =
    rw (sym (split ∙ ap (◌++◌ front) none_left ∙ append-nil front))
      (parse_raw_peer_msg_length-bytes m b rest f e (omega arith) ∙ limited_ok (length b) fits)
framed_tells_length m b front back rest f e fits split (inr h) =
    front_tells_length m b front back rest f e fits split (omega arith)

-- A well-formed message of which the buffer holds all, or the first kilobyte, tells its length.
pub well_formed_tells_length :
    (m : PeerMsg) (b front back rest : Bytes)
    → IsWellFormed m
    → bytes m ≡ ok b
    → length b ≤ 16640
    → b ≡ front ++ back
    → (back ≡ []) ⊎ (1024 ≤ length front)
    → parse_raw_peer_msg_length (front ++ rest) ≡ ok (length b)
well_formed_tells_length (handshake p) b front back rest w e fits split (inl none_left) =
    rw (sym (split ∙ ap (◌++◌ front) none_left ∙ append-nil front)) (whole_handshake p b rest w e)
well_formed_tells_length (handshake p) b front back rest w e fits split (inr h) =
    absurd (omega (arith, length-handshake p b w e, ap length split, length-append front back))
well_formed_tells_length m b front back rest w e fits split h =
    framed_tells_length m b front back rest tt e fits split h
