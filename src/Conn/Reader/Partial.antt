-- ===== src/Conn/Reader/Partial.antt =====
-- What the reader of peerconn.go does with less, and with more, than one message in a read.
use totorrent.Base.{
  ℕ, zero, suc, ◌+◌, ◌-◌, ◌≤◌, ◌≡◌, refl, ◌∙◌, ap, List, [], ◌∷◌, ◌++◌, Bytes, some, arith, length,
  take, drop, replicate, ok, length-append,
}
use native.Mathlib.Nat.{sub-zero, suc-sub-suc, zero-add, suc-add}
use totorrent.Wire.Msg.{PeerMsg, bytes}
use totorrent.Wire.Length.{IsFramed}
use totorrent.Wire.Parse.{new_peer_msg_from_buffer}
use totorrent.Conn.Reader.{ReadEvent, chunk, buffer_size, fill, remaining_msg_len, read_peer_msg}
use totorrent.Conn.Reader.Step.{length-fill, read_loop_done}
use totorrent.Conn.Reader.Header.{front_tells_length}

drop-replicate : (k n : ℕ) → drop k (replicate {A = ℕ} n 0) ≡ replicate (n - k) 0
drop-replicate zero n = rw (sub-zero n)
drop-replicate (suc k) zero = let e : 0 - suc k ≡ 0 = omega arith in rw e
drop-replicate (suc k) (suc n) = rw (suc-sub-suc n k) (drop-replicate k n)

take-replicate : (k n : ℕ) → k ≤ n → take k (replicate {A = ℕ} n 0) ≡ replicate k 0
take-replicate zero n h = refl
take-replicate (suc k) zero h = absurd (omega arith)
take-replicate (suc k) (suc n) h = ap (◌∷◌ 0) (take-replicate k n (omega arith))

take-append : (xs ys : Bytes) (k : ℕ) → take (length xs + k) (xs ++ ys) ≡ xs ++ take k ys
take-append [] ys k = rw (zero-add k)
take-append (x ∷ xs) ys k = rw (suc-add (length xs) k) (ap (◌∷◌ x) (take-append xs ys k))

-- The buffer behind a short first read holds zeros.
short_take :
    (front : Bytes) (k n : ℕ)
    → length front + k ≤ n
    → take (length front + k) (fill front (replicate n 0)) ≡ front ++ replicate k 0
short_take front k n h =
    take-append front _ k
    ∙ ap (◌++◌ front)
        (rw (drop-replicate (length front) n) (take-replicate k (n - length front) (omega arith)))

-- A first read that ends behind the type of a message of at most a kilobyte: the reader does not
-- wait for the rest, and parses the message with zeros in its place.
pub read_peer_msg-short_read :
    (m : PeerMsg) (b front back : Bytes) (es : List ReadEvent)
    → IsFramed m
    → bytes m ≡ ok b
    → length b ≤ buffer_size
    → b ≡ front ++ back
    → 5 ≤ length front
    → read_peer_msg (chunk front ∷ es)
      ≡ some (new_peer_msg_from_buffer (front ++ replicate (length back) 0), es)
unfolding read_peer_msg
read_peer_msg-short_read m b front back es f e small split h =
    let size : length b ≡ length front + length back = ap length split ∙ length-append front back in
    read_loop_done front (replicate buffer_size 0) [] es 0 (length b) (omega arith)
      (unfold remaining_msg_len in front_tells_length m b front back _ f e (omega arith) split h)
      (omega (arith, length-fill front (replicate buffer_size 0) (omega (arith, size))))
    ∙ ap (λ s. some (new_peer_msg_from_buffer s, es))
        (rw size (short_take front (length back) buffer_size (omega (arith, size))))
