-- ===== src/Transfer/Asked.antt =====
-- The requests for all blocks of a piece, and the answers to them (blockrequester.go, peerconn.go).
use totorrent.Base.{
  ℕ, zero, suc, ◌+◌, ◌≤◌, ◌<◌, ◌≡◌, refl, sym, ◌∙◌, ap, subst, false, Bool-cases, inl, inr, List,
  [], ◌∷◌, ◌++◌, Bytes, some, map, length, All, arith, ok,
}
use totorrent.Piece.Block.{ℤ, pos, Block, new_block}
use totorrent.Wire.Msg.{PeerMsg}
use totorrent.Conn.State.{
  Conn, BlockRequester, Channel, open_channel, int_eq, channel_of, set_channel,
}
use totorrent.Conn.Requester.Sends.{request_of, sent, send_request_goes}
use totorrent.Conn.Requester.Receives.{channel_of-set_channel}
use totorrent.Conn.Queue.{send_requests}
use totorrent.Conn.Handlers.Arriving.{Arriving, channel_of-set_channel_ne, int_eq→eq}
use totorrent.Transfer.Table.{AreFrom}
use totorrent.Transfer.Answers.{IsRegular, answers, answered, read_answer}
use mathlib.Core.List.{append_assoc, append-nil}

-- The channels of blocks that are requested one after the other.
abbrev pub open_all : List Block → List (ℤ × Channel) → List (ℤ × Channel)
open_all [] channels = channels
open_all (b ∷ bs) channels = open_all bs (set_channel b.idx open_channel channels)

-- The connection behind these requests.
abbrev pub asked : List Block → BlockRequester → Conn → Conn
asked bs r c = record c {
  block_requester = some (record r { channels = open_all bs r.channels });
  outbox = c.outbox ++ map request_of bs;
}

pub send_requests-asked :
    (bs : List Block) (c : Conn) (r : BlockRequester)
    → c.block_requester ≡ some r
    → send_requests bs c ≡ ok (asked bs r c)
unfolding send_requests
send_requests-asked [] c r e =
    ap (λ (o : List PeerMsg). ok (record c { outbox = o })) (sym (append-nil c.outbox))
    ∙ ap (λ q. ok (record c { block_requester = q; outbox = c.outbox ++ [] })) e
send_requests-asked (b ∷ bs) c r e =
    rw
      (
        send_request_goes b c r e,
        send_requests-asked bs (sent b r c)
            (record r { channels = set_channel b.idx open_channel r.channels }) refl,
        append_assoc c.outbox (request_of b ∷ []) (map request_of bs),
      )
      refl

IsOpen : ℕ → List (ℤ × Channel) → Type 0
IsOpen j channels = channel_of (pos j) channels ≡ some open_channel

IsOpen-set_channel :
    (j : ℕ) (b : Block) (channels : List (ℤ × Channel))
    → IsOpen j channels
    → IsOpen j (set_channel b.idx open_channel channels)
unfolding IsOpen
IsOpen-set_channel j b channels h = elim (Bool-cases (int_eq b.idx (pos j))) [
  | inl e ↦
      subst (λ k. channel_of (pos j) (set_channel k open_channel channels) ≡ some open_channel)
        (sym (int_eq→eq b.idx (pos j) e)) (channel_of-set_channel (pos j) open_channel channels)
  | inr e ↦ channel_of-set_channel_ne b.idx (pos j) open_channel channels e ∙ h
]

IsOpen-open_all :
    (j : ℕ) (bs : List Block) (channels : List (ℤ × Channel))
    → IsOpen j channels
    → IsOpen j (open_all bs channels)
IsOpen-open_all j [] channels h = h
IsOpen-open_all j (b ∷ bs) channels h =
    IsOpen-open_all j bs (set_channel b.idx open_channel channels)
      (IsOpen-set_channel j b channels h)

-- Every block from number `i` on, `count` of them, is awaited.
abbrev pub AreOpen : ℕ → ℕ → List (ℤ × Channel) → Type 0
AreOpen i zero channels = Unit {0}
AreOpen i (suc count) channels =
    (channel_of (pos i) channels ≡ some open_channel) × AreOpen (suc i) count channels

pub open_all-AreOpen :
    (k l i : ℕ) (bs : List Block) (channels : List (ℤ × Channel))
    → AreFrom k l i bs
    → AreOpen i (length bs) (open_all bs channels)
unfolding IsOpen
open_all-AreOpen k l i [] channels a = tt
open_all-AreOpen k l i (b ∷ bs) channels a = (
  IsOpen-open_all i bs (set_channel b.idx open_channel channels) (
      subst (λ j. channel_of (pos i) (set_channel j open_channel channels) ≡ some open_channel)
        (sym a.0.0) (channel_of-set_channel (pos i) open_channel channels)),
  open_all-AreOpen k l (suc i) bs (set_channel b.idx open_channel channels) a.1,
)

module _ (content : Bytes) (pieces m l : ℕ) (r : IsRegular content pieces m l) where
  abbrev pub all_answered : ℕ → ℕ → ℕ → List Block
  all_answered k i zero = []
  all_answered k i (suc count) = answered content m l k i ∷ all_answered k (suc i) count

  pub length-all_answered : (k i count : ℕ) → length (all_answered k i count) ≡ count
  length-all_answered k i zero = refl
  length-all_answered k i (suc count) = ap suc (length-all_answered k (suc i) count)

  later_differ :
      (k i j count : ℕ)
      → i < j
      → All
          (λ (d : Block). int_eq (answered content m l k i).idx d.idx ≡ false)
          (all_answered k j count)
  unfolding new_block
  later_differ k i j zero h = tt
  later_differ k i j (suc count) h = (ground arith, later_differ k i (suc j) count (omega arith))

  pub all_answered-Arriving :
      (k i count : ℕ) (channels : List (ℤ × Channel))
      → k < pieces
      → i + count ≤ m
      → AreOpen i count channels
      → Arriving k channels (answers content m l k i count) (all_answered k i count)
  unfolding new_block
  all_answered-Arriving k i zero channels hk h o = tt
  all_answered-Arriving k i (suc count) channels hk h o = (
    read_answer content pieces m l r k i hk (omega arith),
    refl,
    o.0,
    later_differ k i (suc i) count (omega arith),
    all_answered-Arriving k (suc i) count channels hk (omega arith) o.1,
  )
