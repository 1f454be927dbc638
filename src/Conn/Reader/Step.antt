-- ===== src/Conn/Reader/Step.antt =====
-- One read of the loop of `ReadPeerMsg` (peerconn.go).
use totorrent.Base.{
  ℕ, zero, suc, ◌-◌, ◌≤◌, ◌<◌, ◌≡◌, refl, false, List, [], ◌∷◌, ◌++◌, Bytes, some, arith, length,
  take, drop, ltb, lt→ltb, ok, length-append, length-drop, take-all,
}
use totorrent.Util.Slices.{min}
use totorrent.Wire.Parse.{new_peer_msg_from_buffer}
use totorrent.Conn.Reader.{ReadEvent, chunk, fill, remaining_msg_len, read_loop}

pub drop-all : (xs : Bytes) (n : ℕ) → length xs ≤ n → drop n xs ≡ []
drop-all [] zero h = refl
drop-all [] (suc n) h = refl
drop-all (x ∷ xs) zero h = absurd (omega arith)
drop-all (x ∷ xs) (suc n) h = drop-all xs n (omega arith)

pub length-fill : (c buf : Bytes) → length c ≤ length buf → length (fill c buf) ≡ length buf
length-fill c buf h =
    omega (arith, length-append c (drop (length c) buf), length-drop (length c) buf)

min-eq_right : (a n : ℕ) → n ≤ a → min a n ≡ n
unfolding min
min-eq_right a n h = ground arith

min-eq_left : (a n : ℕ) → a < n → min a n ≡ a
unfolding min
min-eq_left a n h = ground arith

none_left : (n : ℕ) → ltb 0 (n - n) ≡ false
none_left n = ground arith

-- A read that completes the message.
pub read_loop_done :
    (c buf total : Bytes) (es : List ReadEvent) (remaining n : ℕ)
    → 0 < length c
    → remaining_msg_len remaining (fill c buf) ≡ ok n
    → n ≤ length (fill c buf)
    → read_loop (chunk c ∷ es) buf total remaining
      ≡ some (new_peer_msg_from_buffer (total ++ take n (fill c buf)), es)
unfolding read_loop
read_loop_done [] buf total es remaining n h e fits = absurd (omega arith)
read_loop_done (x ∷ c) buf total es remaining n h e fits =
    rw (e, read_loop) (rw (min-eq_right (length (fill (x ∷ c) buf)) n fits, none_left n))

-- A read that leaves something to be read.
pub read_loop_more :
    (c buf total : Bytes) (es : List ReadEvent) (remaining n : ℕ)
    → 0 < length c
    → remaining_msg_len remaining (fill c buf) ≡ ok n
    → length (fill c buf) < n
    → read_loop (chunk c ∷ es) buf total remaining
      ≡ read_loop es (fill c buf) (total ++ fill c buf) (n - length (fill c buf))
unfolding read_loop
read_loop_more [] buf total es remaining n h e fits = absurd (omega arith)
read_loop_more (x ∷ c) buf total es remaining n h e fits =
    let room = length (fill (x ∷ c) buf) in
    rw (e, read_loop)
      (rw (
        min-eq_left room n fits,
        lt→ltb 0 (n - room) (omega arith),
        take-all (fill (x ∷ c) buf) room (omega arith),
      ))
