-- ===== src/Wire/Length.antt =====
-- The length that `ParseRawPeerMsgLength` of peermsg.go reads off a written message.
use totorrent.Base.{ℕ, ◌+◌, ◌≡◌, ◌<◌, ◌^◌, [], ◌∷◌, ◌++◌, Bytes, arith, ◌-◌, some}
use totorrent.Base.{
  Option-cases, ◌⊎◌, inl, inr, ap, length, length-append, length-take, length-replicate, take,
  replicate,
}
use totorrent.Base.{ok}
use totorrent.Base.Words.{put_uint32, read_fresh, be_uint32, read_at}
use totorrent.Wire.Msg.{
  PeerMsg, handshake, keep_alive, choked, unchoked, interested, not_interested, have, bitfield,
  request, piece, bytes, have_bytes, request_bytes, piece_bytes,
}
use totorrent.Wire.Parse.{is_peer_handshake_msg, prefix_length, parse_raw_peer_msg_length}
use totorrent.Wire.Frame.{limited, frame-not_handshake, prefix_length-put_uint32}
use totorrent.Wire.RoundTrip.{piece_bytes_lem}

length-read_fresh : (p : Bytes) (n : ℕ) (b : Bytes) → read_fresh p n ≡ some b → length b ≡ n
unfolding read_fresh
length-read_fresh [] n b e = cc
length-read_fresh (x ∷ p) n b e = ground (
  arith,
  length-append (take n (x ∷ p)) (replicate (n - length (x ∷ p)) 0),
  length-take n (x ∷ p),
  length-replicate {A = ℕ} (n - length (x ∷ p)) 0,
)

-- A message that starts with a length prefix.
abbrev pub IsFramed : PeerMsg → Type 0
IsFramed (handshake p) = ⊥
IsFramed _ = Unit {0}

-- A frame of which the prefix tells the truth.
abbrev pub IsFrame : Bytes → Type 0
IsFrame b = (id : ℕ) × (p : Bytes) × (id < 8) × (b ≡ put_uint32 (length p + 1) ++ id ∷ p)

module _ (n id : ℕ) (p : Bytes) (e : length p ≡ n) where
  IsFrame-fixed : id < 8 → IsFrame (put_uint32 (n + 1) ++ id ∷ p)
  IsFrame-fixed h = (id, p, h, rw e)

have-IsFrame : (p b : Bytes) → have_bytes p ≡ ok b → IsFrame b
unfolding have_bytes
have-IsFrame p b e = elim (Option-cases (read_fresh p 4)) [
  | inl r ↦ absurd (ground (arith, r))
  | inr (x, r) ↦
      (4, x, omega arith, unfold put_uint32 in ground (arith, r, length-read_fresh p 4 x r))
]

request-IsFrame : (p b : Bytes) → request_bytes p ≡ ok b → IsFrame b
unfolding request_bytes
request-IsFrame p b e = elim (Option-cases (read_fresh p 12)) [
  | inl r ↦ absurd (ground (arith, r))
  | inr (x, r) ↦
      (6, x, omega arith, unfold put_uint32 in ground (arith, r, length-read_fresh p 12 x r))
]

piece-IsFrame : (p b : Bytes) → piece_bytes p ≡ ok b → IsFrame b
piece-IsFrame [] b e = unfold piece_bytes read_fresh in cc
piece-IsFrame (x ∷ p) b e = (7, x ∷ p, omega arith, cc (e, piece_bytes_lem (x ∷ p) (omega arith)))

-- Every framed message but the keep-alive, which is a prefix of 0 alone.
pub bytes-IsFrame :
    (m : PeerMsg) (b : Bytes) → IsFramed m → bytes m ≡ ok b → IsFrame b ⊎ (b ≡ 0 ∷ 0 ∷ 0 ∷ 0 ∷ [])
unfolding bytes put_uint32
bytes-IsFrame (handshake p) b h e = absurd h
bytes-IsFrame (keep_alive p) b h e = inr cc
bytes-IsFrame (choked p) b h e = inl (0, [], omega arith, cc)
bytes-IsFrame (unchoked p) b h e = inl (1, [], omega arith, cc)
bytes-IsFrame (interested p) b h e = inl (2, [], omega arith, cc)
bytes-IsFrame (not_interested p) b h e = inl (3, [], omega arith, cc)
bytes-IsFrame (have p) b h e = inl (have-IsFrame p b e)
bytes-IsFrame (bitfield p) b h e = inl (5, p, omega arith, ground arith)
bytes-IsFrame (request p) b h e = inl (request-IsFrame p b e)
bytes-IsFrame (piece p) b h e = inl (piece-IsFrame p b e)

pub length-frame : (n id : ℕ) (p : Bytes) → length (put_uint32 n ++ id ∷ p) ≡ length p + 1 + 4
unfolding put_uint32
length-frame n id p = omega arith

-- The five bytes in front of a payload are enough, whatever the buffer holds behind them.
pub parse_raw-header :
    (n id : ℕ) (rest : Bytes)
    → n < 2 ^ 32
    → id < 8
    → parse_raw_peer_msg_length (put_uint32 n ++ id ∷ rest) ≡ limited (n + 4)
unfolding parse_raw_peer_msg_length
parse_raw-header n id rest hn hid =
    rw (← prefix_length-put_uint32 n (id ∷ rest) hn)
      (unfold put_uint32 in rw (frame-not_handshake _ _ _ _ id rest (omega arith)))

parse_raw-frame :
    (id : ℕ) (p rest : Bytes)
    → length p + 1 < 2 ^ 32
    → id < 8
    → parse_raw_peer_msg_length ((put_uint32 (length p + 1) ++ id ∷ p) ++ rest)
      ≡ limited (length p + 1 + 4)
unfolding put_uint32
parse_raw-frame id p rest hn hid = parse_raw-header (length p + 1) id (p ++ rest) hn hid

-- `ParseRawPeerMsgLength` reads the length of any message but a handshake off the bytes that
-- `Bytes` wrote, whatever follows them, and refuses a message above the limit; the length prefix
-- must not wrap.
pub parse_raw_peer_msg_length-bytes :
    (m : PeerMsg) (b rest : Bytes)
    → IsFramed m
    → bytes m ≡ ok b
    → length b < 2 ^ 32 + 4
    → parse_raw_peer_msg_length (b ++ rest) ≡ limited (length b)
parse_raw_peer_msg_length-bytes m b rest h e fits = elim (bytes-IsFrame m b h e) [
  | inl (id, p, hid, eb) ↦
      rw (eb, length-frame (length p + 1) id p)
        (parse_raw-frame id p rest (omega (arith, ap length eb, length-frame (length p + 1) id p))
          hid)
  | inr eb ↦ rw eb (
      unfold parse_raw_peer_msg_length is_peer_handshake_msg prefix_length read_at be_uint32 in
      ground arith)
]
