-- ===== src/Conn/Loops/Fuel.antt =====
-- The fuel of the reader loop (peerconn.go) is enough.
use totorrent.Base.{
  ℕ, suc, ◌-◌, ◌<◌, Bool, true, false, List, [], ◌∷◌, ◌++◌, Bytes, none, some, Outcome-Cases, is_ok,
  is_err, is_panic, is_blocked, arith, length, take, ltb, if◌then◌else◌, ok, err, panic, blocked,
  ◌≡◌, Error,
}
use totorrent.Util.Slices.{min}
use totorrent.Wire.Msg.{PeerMsg}
use totorrent.Conn.Reader.{
  ReadEvent, ReadResult, chunk, timeout, eof, failure, foreign_failure, reset, fill,
  remaining_msg_len, read_loop, read_peer_msg,
}
use totorrent.Conn.Loops.{LoopEnd, waiting, failed, crashed, stuck}

-- What is left behind a read is shorter than what there was.
abbrev pub UsesUp : ℕ → ReadResult → Type 0
UsesUp n none = Unit {0}
UsesUp n (some (r, rest)) = length rest < n

UsesUp-suc : (n : ℕ) (r : ReadResult) → UsesUp n r → UsesUp (suc n) r
UsesUp-suc n none h = tt
UsesUp-suc n (some (r, rest)) h = omega arith

if-UsesUp :
    (b : Bool) (n : ℕ) (r s : ReadResult) → UsesUp n r → UsesUp n s → UsesUp n (if b then r else s)
if-UsesUp true n r s h k = h
if-UsesUp false n r s h k = k

read_loop-UsesUp :
    (es : List ReadEvent) (buf total : Bytes) (n : ℕ)
    → UsesUp (length es) (read_loop es buf total n)
unfolding read_loop min
read_loop-UsesUp [] buf total n = tt
read_loop-UsesUp (eof ∷ es) buf total n = omega arith
read_loop-UsesUp (reset ∷ es) buf total n = omega arith
read_loop-UsesUp (failure ∷ es) buf total n = omega arith
read_loop-UsesUp (foreign_failure ∷ es) buf total n = omega arith
read_loop-UsesUp (timeout still ∷ es) buf total n =
    if-UsesUp still (suc (length es)) (read_loop es buf total n) _
      (UsesUp-suc (length es) (read_loop es buf total n) (read_loop-UsesUp es buf total n))
      (omega arith)
read_loop-UsesUp (chunk [] ∷ es) buf total n = omega arith
read_loop-UsesUp (chunk (x ∷ c) ∷ es) buf total n =
    let b = fill (x ∷ c) buf in
    elim (Outcome-Cases (remaining_msg_len n b)) [
      | is_err e h ↦ rw (h, read_loop) (omega arith)
      | is_panic h ↦ rw (h, read_loop) (omega arith)
      | is_blocked h ↦ rw (h, read_loop) (omega arith)
      | is_ok k h ↦
          let again =
            read_loop-UsesUp es b (total ++ take (min (length b) k) b) (k - min (length b) k) in
          rw (h, read_loop)
            (if-UsesUp (ltb 0 (k - min (length b) k)) (suc (length es)) _ _
              (UsesUp-suc (length es)
                (read_loop es b (total ++ take (min (length b) k) b) (k - min (length b) k)) again)
              (omega arith))
    ]

pub read_peer_msg-UsesUp : (es : List ReadEvent) → UsesUp (length es) (read_peer_msg es)
unfolding read_peer_msg
read_peer_msg-UsesUp es = read_loop-UsesUp es _ _ _

-- `StartPeerMsgReaderLoop` as it is written, a loop without a bound: from these reads it sends on the messages, and
-- ends so.
pub data Loops : List ReadEvent → List PeerMsg → LoopEnd → Type 0 where
  sends_on :
      (es rest : List ReadEvent) (m : PeerMsg) (ms : List PeerMsg) (end : LoopEnd)
      → read_peer_msg es ≡ some (ok m, rest)
      → Loops rest ms end
      → Loops es (m ∷ ms) end
  fails :
      (es rest : List ReadEvent) (e : Error)
      → read_peer_msg es ≡ some (err e, rest)
      → Loops es [] (failed e)
  crashes : (es rest : List ReadEvent) → read_peer_msg es ≡ some (panic, rest) → Loops es [] crashed
  sticks : (es rest : List ReadEvent) → read_peer_msg es ≡ some (blocked, rest) → Loops es [] stuck
  still_waits : (es : List ReadEvent) → read_peer_msg es ≡ none → Loops es [] waiting
