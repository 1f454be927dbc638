-- ===== src/Wire/Frame.antt =====
-- How the parser of peermsg.go sees a framed message: four bytes of length, the id, the payload.
use totorrent.Base.{ℕ, ◌+◌, ◌≡◌, ◌≢◌, ◌<◌, ◌^◌, false, [], ◌∷◌, ◌++◌, Bytes, some, arith}
use totorrent.Base.{ltb, if◌then◌else◌}
use totorrent.Base.{Outcome, ok, err, err_peer_listen}
use totorrent.Base.Words.{put_uint32, be_uint32, read_at}
use totorrent.Wire.Parse.{
  is_peer_handshake_msg, framed_msg, msg_of_id, max_msg_len, prefix_length,
  new_peer_msg_from_buffer,
}

-- The fifth byte of a handshake is a `T`, which is no message id.
pub frame-not_handshake :
    (a b c d id : ℕ) (p : Bytes)
    → id ≢ b'T'
    → is_peer_handshake_msg (a ∷ b ∷ c ∷ d ∷ id ∷ p) ≡ false
unfolding is_peer_handshake_msg read_at
frame-not_handshake a b c d id p h = ground arith

pub framed_msg_lem :
    (a b c d id : ℕ) (p : Bytes)
    → framed_msg (a ∷ b ∷ c ∷ d ∷ id ∷ p) ≡ msg_of_id (some (id ∷ [])) p
unfolding framed_msg read_at
framed_msg_lem a b c d id [] = ground arith
framed_msg_lem a b c d id (x ∷ p) = ground arith

-- A frame is read by its id.
pub new_peer_msg_from_buffer-frame :
    (a b c d id : ℕ) (p : Bytes)
    → id ≢ b'T'
    → new_peer_msg_from_buffer (a ∷ b ∷ c ∷ d ∷ id ∷ p) ≡ msg_of_id (some (id ∷ [])) p
unfolding new_peer_msg_from_buffer
new_peer_msg_from_buffer-frame a b c d id p h =
    rw (frame-not_handshake a b c d id p h) (framed_msg_lem a b c d id p)

-- The limit on the length of a message.
abbrev pub limited : ℕ → Outcome ℕ
limited n = if ltb max_msg_len n then err err_peer_listen else ok n

pub prefix_length-put_uint32 :
    (n : ℕ) (rest : Bytes) → n < 2 ^ 32 → prefix_length (put_uint32 n ++ rest) ≡ limited (n + 4)
unfolding prefix_length read_at put_uint32 be_uint32
prefix_length-put_uint32 n rest h = ground arith
