-- ===== src/Conn/Requester/Receives.antt =====
-- The arrival of a block: `onBlockReceive` of blockrequester.go behind `request`.
use totorrent.Base.{◌≡◌, refl, true, List, [], ◌∷◌, some, Bool-cases, inl, inr, ok, panic, arith}
use totorrent.Piece.Block.{ℤ, pos, negsuc, Block}
use totorrent.Conn.State.{
  Conn, BlockRequester, Channel, open_channel, closed_channel, int_eq, channel_of, set_channel,
  decrement,
}
use totorrent.Conn.Requester.{on_block_receive, send_request}
use totorrent.Conn.Requester.Sends.{sent, send_request_goes}

int_eq_refl : (k : ℤ) → int_eq k k ≡ true
int_eq_refl (pos n) = ground arith
int_eq_refl (negsuc n) = ground arith

pub channel_of-set_channel :
    (k : ℤ) (ch : Channel) (m : List (ℤ × Channel)) → channel_of k (set_channel k ch m) ≡ some ch
unfolding channel_of set_channel
channel_of-set_channel k ch [] = rw (int_eq_refl k) refl
channel_of-set_channel k ch ((j, old) ∷ m) = elim (Bool-cases (int_eq j k)) [
  | inl e ↦ rw e (rw (channel_of, int_eq_refl k) refl)
  | inr e ↦ rw (e, channel_of, e) (channel_of-set_channel k ch m)
]

received :
    (b : Block) (r : BlockRequester)
    → channel_of b.idx r.channels ≡ some open_channel
    → (s : BlockRequester) × (on_block_receive b r ≡ ok s)
      × (s.blocks_left ≡ decrement r.blocks_left)
      × (on_block_receive b s ≡ panic)
unfolding on_block_receive set_channel
received b r n =
    let s : BlockRequester = record r {
      channels = set_channel b.idx closed_channel r.channels;
      blocks_left = decrement r.blocks_left;
    } in
    (
      s,
      rw (on_block_receive, n) refl,
      refl,
      rw (on_block_receive, channel_of-set_channel b.idx closed_channel r.channels) refl,
    )

-- With a requester, a block that was requested is received once: the first `onBlockReceive` counts
-- it down, and a second one for the same block panics.
pub on_block_receive-requested :
    (b : Block) (c : Conn) (r : BlockRequester)
    → c.block_requester ≡ some r
    → (d : Conn) × (q : BlockRequester) × (s : BlockRequester) × (send_request b c ≡ ok d)
      × (d.block_requester ≡ some q)
      × (on_block_receive b q ≡ ok s)
      × (s.blocks_left ≡ decrement r.blocks_left)
      × (on_block_receive b s ≡ panic)
on_block_receive-requested b c r h =
    let q : BlockRequester = record r { channels = set_channel b.idx open_channel r.channels } in
    let (s, got, left, twice) =
      received b q (channel_of-set_channel b.idx open_channel r.channels) in
    (sent b r c, q, s, send_request_goes b c r h, refl, got, left, twice)
