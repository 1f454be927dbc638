-- ===== src/Wire/Handshake.antt =====
-- The handshake of peermsg.go: what `BuildPeerHandshakeMsg` writes, the getters and the parser read.
use totorrent.Base.{◌≡◌, refl, sym, true, [], ◌∷◌, ◌++◌, Bytes, some, arith, length, length-append}
use totorrent.Base.{ok}
use totorrent.Base.Words.{read_at, read_at_of_eq}
use totorrent.Wire.Msg.{get_payload}
use totorrent.Wire.Build.{build_peer_handshake_msg, protocol_name, reserved_bytes}
use totorrent.Wire.Parse.{
  is_peer_handshake_msg, build_peer_handshake_msg_from_raw_bytes, new_peer_msg_from_buffer,
}
use totorrent.Wire.Fields.{handshake_get_info_hash, handshake_get_peer_id}
use mathlib.Core.List.{append-nil, append_assoc}

abbrev head : Bytes
head = 19 ∷ (protocol_name ++ reserved_bytes)

-- The payload of a handshake.
abbrev pub handshake_payload : Bytes → Bytes → Bytes
handshake_payload peer_id infohash = head ++ (infohash ++ peer_id)

module _ (peer_id infohash : Bytes) (hp : length peer_id ≡ 20) (hi : length infohash ≡ 20) where
  handshake_infohash : read_at (handshake_payload peer_id infohash) 20 28 ≡ some infohash
  handshake_infohash = read_at_of_eq _ head infohash peer_id 20 28 refl hi refl (omega arith)

  handshake_peer_id : read_at (handshake_payload peer_id infohash) 20 48 ≡ some peer_id
  handshake_peer_id =
      read_at_of_eq _ (head ++ infohash) peer_id [] 20 48
        (rw append-nil (sym (append_assoc head infohash peer_id))) hp
        (omega (arith, length-append head infohash)) (omega arith)

  pub is_peer_handshake_msg_built :
      (rest : Bytes) → is_peer_handshake_msg (handshake_payload peer_id infohash ++ rest) ≡ true
  unfolding is_peer_handshake_msg read_at
  is_peer_handshake_msg_built rest = ground arith

  pub new_peer_msg_from_buffer-handshake :
      new_peer_msg_from_buffer (handshake_payload peer_id infohash)
      ≡ ok (build_peer_handshake_msg peer_id infohash)
  unfolding new_peer_msg_from_buffer build_peer_handshake_msg_from_raw_bytes
  new_peer_msg_from_buffer-handshake = ground (
    arith,
    is_peer_handshake_msg_built [],
    append-nil (handshake_payload peer_id infohash),
    handshake_infohash,
    handshake_peer_id,
  )

  -- The getters of a handshake return the info hash and the peer id, of 20 bytes each, that it was
  -- built from.
  pub handshake_getters-build :
      (handshake_get_info_hash (get_payload (build_peer_handshake_msg peer_id infohash))
        ≡ ok infohash)
      × (handshake_get_peer_id (get_payload (build_peer_handshake_msg peer_id infohash))
          ≡ ok peer_id)
  unfolding handshake_get_info_hash handshake_get_peer_id get_payload build_peer_handshake_msg
  handshake_getters-build = (ground (arith, handshake_infohash), ground (arith, handshake_peer_id))
