-- ===== src/Wire/RoundTrip.antt =====
-- A message that is written by `Bytes` and read again by `NewPeerMsgFromBuffer`.
use totorrent.Base.{ℕ, ◌+◌, ◌≡◌, refl, ◌<◌, [], ◌∷◌, ◌++◌, Bytes, arith}
use totorrent.Base.{length, some}
use totorrent.Base.{ok}
use totorrent.Base.Words.{put_uint32, read_fresh, read_fresh-all}
use totorrent.Wire.Msg.{
  PeerMsg, handshake, keep_alive, choked, unchoked, interested, not_interested, have, bitfield,
  request, piece, bytes, have_bytes, request_bytes, piece_bytes,
}
use totorrent.Wire.Build.{build_peer_handshake_msg}
use totorrent.Wire.Parse.{is_peer_handshake_msg, new_peer_msg_from_buffer, framed_msg, msg_of_id}
use totorrent.Wire.Frame.{new_peer_msg_from_buffer-frame}
use totorrent.Wire.Handshake.{new_peer_msg_from_buffer-handshake}

-- The messages that the protocol allows.
abbrev pub IsWellFormed : PeerMsg → Type 0
IsWellFormed (handshake p) =
    (peer_id : Bytes) × (infohash : Bytes) × (length peer_id ≡ 20)
    × (length infohash ≡ 20)
    × (handshake p ≡ build_peer_handshake_msg peer_id infohash)
IsWellFormed (keep_alive p) = p ≡ []
IsWellFormed (choked p) = p ≡ []
IsWellFormed (unchoked p) = p ≡ []
IsWellFormed (interested p) = p ≡ []
IsWellFormed (not_interested p) = p ≡ []
IsWellFormed (have p) = length p ≡ 4
IsWellFormed (bitfield p) = Unit {0}
IsWellFormed (request p) = length p ≡ 12
IsWellFormed (piece p) = 0 < length p

read_fresh-length : (p : Bytes) (n : ℕ) → length p ≡ n → 0 < n → read_fresh p n ≡ some p
read_fresh-length p n e h = ground (arith, read_fresh-all p)

pub have_bytes-length_four : (p : Bytes) → length p ≡ 4 → have_bytes p ≡ ok (0 ∷ 0 ∷ 0 ∷ 5 ∷ 4 ∷ p)
unfolding have_bytes
have_bytes-length_four p e = ground (arith, read_fresh-length p 4)

pub request_bytes-length_twelve :
    (p : Bytes) → length p ≡ 12 → request_bytes p ≡ ok (0 ∷ 0 ∷ 0 ∷ 13 ∷ 6 ∷ p)
unfolding request_bytes
request_bytes-length_twelve p e = ground (arith, read_fresh-length p 12)

pub piece_bytes_lem :
    (p : Bytes) → 0 < length p → piece_bytes p ≡ ok (put_uint32 (length p + 1) ++ 7 ∷ p)
unfolding piece_bytes
piece_bytes_lem p h = ground (arith, read_fresh-all p)

-- What `Bytes` writes for a message, and that the parser reads the message back from it.
abbrev pub Survives : PeerMsg → Type 0
Survives m = (b : Bytes) × (bytes m ≡ ok b) × (new_peer_msg_from_buffer b ≡ ok m)

-- For every message that the protocol allows, `Bytes` succeeds, and `NewPeerMsgFromBuffer` reads
-- the same message back from what it wrote.
pub new_peer_msg_from_buffer-bytes : (m : PeerMsg) → IsWellFormed m → Survives m
unfolding bytes msg_of_id put_uint32 build_peer_handshake_msg
new_peer_msg_from_buffer-bytes (handshake p) (peer_id, infohash, hp, hi, e) =
    (p, refl, cc (e, new_peer_msg_from_buffer-handshake peer_id infohash hp hi))
new_peer_msg_from_buffer-bytes (keep_alive p) e = (
  0 ∷ 0 ∷ 0 ∷ 0 ∷ [],
  refl,
  rw e (unfold new_peer_msg_from_buffer is_peer_handshake_msg framed_msg in refl),
)
new_peer_msg_from_buffer-bytes (choked p) e =
    (_, refl, rw e (new_peer_msg_from_buffer-frame 0 0 0 1 0 [] (omega arith)))
new_peer_msg_from_buffer-bytes (unchoked p) e =
    (_, refl, rw e (new_peer_msg_from_buffer-frame 0 0 0 1 1 [] (omega arith)))
new_peer_msg_from_buffer-bytes (interested p) e =
    (_, refl, rw e (new_peer_msg_from_buffer-frame 0 0 0 1 2 [] (omega arith)))
new_peer_msg_from_buffer-bytes (not_interested p) e =
    (_, refl, rw e (new_peer_msg_from_buffer-frame 0 0 0 1 3 [] (omega arith)))
new_peer_msg_from_buffer-bytes (have p) h =
    (_, have_bytes-length_four p h, new_peer_msg_from_buffer-frame 0 0 0 5 4 p (omega arith))
new_peer_msg_from_buffer-bytes (bitfield p) h =
    (_, refl, new_peer_msg_from_buffer-frame _ _ _ _ 5 p (omega arith))
new_peer_msg_from_buffer-bytes (request p) h =
    (_, request_bytes-length_twelve p h, new_peer_msg_from_buffer-frame 0 0 0 13 6 p (omega arith))
new_peer_msg_from_buffer-bytes (piece p) h =
    (_, piece_bytes_lem p h, new_peer_msg_from_buffer-frame _ _ _ _ 7 p (omega arith))
