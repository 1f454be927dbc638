-- ===== src/Conn/Requester/Sends.antt =====
-- What `request` of blockrequester.go changes, and how often it is repeated.
use totorrent.Base.{
  ℕ, suc, ◌+◌, ◌≤◌, ◌≡◌, refl, sym, ◌∙◌, Bool, true, false, List, [], ◌∷◌, ◌++◌, some, arith,
  replicate, ltb, ok, Option-cases, Bool-cases, inl, inr,
}
use totorrent.Piece.Block.{Block}
use totorrent.Base.Words.{put_uint32}
use totorrent.Wire.Msg.{PeerMsg, request}
use totorrent.Wire.Build.{build_peer_request_msg}
use totorrent.Conn.State.{Conn, BlockRequester, write_peer_msg, set_channel, open_channel}
use totorrent.Conn.Requester.{send_request, wait_for_block, request_block}
use mathlib.Core.List.{append_assoc, append-nil}

-- The REQUEST message for a block.
abbrev pub request_of : Block → PeerMsg
request_of b = request (put_uint32 b.piece_idx ++ (put_uint32 b.begin ++ put_uint32 b.block_length))

-- What sending requests leaves alone.
pub record SamePlan (c d : Conn) : Type 0 where
  pub same_queue : d.pieces_to_download_queue ≡ c.pieces_to_download_queue
  pub same_pieces : d.pieces ≡ c.pieces
  pub same_from : d.from_downloading ≡ c.from_downloading
  pub same_to : d.to_downloading ≡ c.to_downloading
  pub same_misfires : d.misfires ≡ c.misfires
  pub same_weak : d.to_weak ≡ c.to_weak
  pub same_saved : d.saved_blocks ≡ c.saved_blocks
  pub same_seeding : d.is_seeding ≡ c.is_seeding
  pub same_peer : d.to_peer_id ≡ c.to_peer_id

pub send_request_lem :
    (b : Block) (c d : Conn)
    → send_request b c ≡ ok d
    → (d.outbox ≡ c.outbox ++ request_of b ∷ [])
      × SamePlan c d
      × ((r : BlockRequester) × (d.block_requester ≡ some r))
unfolding send_request build_peer_request_msg write_peer_msg
send_request_lem b c d e = elim (Option-cases c.block_requester) [
  | inl n ↦ absurd (ground (arith, n))
  | inr (r, n) ↦ (
    ground (arith, n),
    record {
      same_queue = ground (arith, n);
      same_pieces = ground (arith, n);
      same_from = ground (arith, n);
      same_to = ground (arith, n);
      same_misfires = ground (arith, n);
      same_weak = ground (arith, n);
      same_saved = ground (arith, n);
      same_seeding = ground (arith, n);
      same_peer = ground (arith, n);
    },
    (record r { channels = set_channel b.idx open_channel r.channels }, ground (arith, n)),
  )
]

-- With a requester the request goes out.
abbrev pub sent : Block → BlockRequester → Conn → Conn
sent b r c = record c {
  block_requester = some (record r { channels = set_channel b.idx open_channel r.channels });
  outbox = c.outbox ++ request_of b ∷ [];
}

pub send_request_goes :
    (b : Block) (c : Conn) (r : BlockRequester)
    → c.block_requester ≡ some r
    → send_request b c ≡ ok (sent b r c)
unfolding send_request build_peer_request_msg write_peer_msg
send_request_goes b c r e = rw (e, send_request)

-- How a wait that began with `c` ends: `again` more requests for the block went out, and the peer is
-- weak if the misfires passed the limit.
record Waited (b : Block) (c d : Conn) : Type 0 where
  again : ℕ
  sent_again : d.outbox ≡ c.outbox ++ replicate again (request_of b)
  within : again + c.misfires ≤ 3
  counted : d.misfires ≤ 4
  weakened : d.misfires ≡ 4 → d.to_weak ≡ true

wait_for_block-Waited :
    (received : List Bool) (b : Block) (c : Conn) (r : BlockRequester)
    → c.block_requester ≡ some r
    → c.misfires ≤ 3
    → (d : Conn) × (wait_for_block received b c ≡ ok d) × Waited b c d
unfolding wait_for_block
wait_for_block-Waited [] b c r e h = (
  c,
  refl,
  record {
    again = 0;
    sent_again = sym (append-nil c.outbox);
    within = omega arith;
    counted = omega arith;
    weakened = λ m. absurd (omega arith);
  },
)
wait_for_block-Waited (true ∷ os) b c r e h = (
  c,
  refl,
  record {
    again = 0;
    sent_again = sym (append-nil c.outbox);
    within = omega arith;
    counted = omega arith;
    weakened = λ m. absurd (omega arith);
  },
)
wait_for_block-Waited (false ∷ os) b c r e h = elim (Bool-cases (ltb 3 (c.misfires + 1))) [
  | inl last ↦ (
    record c { misfires = c.misfires + 1; to_weak = true },
    rw last,
    record {
      again = 0;
      sent_again = sym (append-nil c.outbox);
      within = omega arith;
      counted = omega arith;
      weakened = λ m. refl;
    },
  )
  | inr more ↦
      let missed = record c { misfires = c.misfires + 1 } in
      let (d, ed, w) =
        wait_for_block-Waited os b (sent b r missed)
          (record r { channels = set_channel b.idx open_channel r.channels }) refl
          (ground (arith, more)) in
      (
        d,
        rw (more, send_request_goes b missed r e) ed,
        record {
          again = suc w.again;
          sent_again =
              w.sent_again
              ∙ append_assoc c.outbox (request_of b ∷ []) (replicate w.again (request_of b));
          within = omega (arith, w.within);
          counted = w.counted;
          weakened = w.weakened;
        },
      )
]

-- Whatever the waits return, `request` ends: with at most 3 misfires counted before, it sends the
-- REQUEST once and repeats it at most once for each misfire that was still allowed, and a peer that
-- passes the limit is declared weak.
pub request_block_lem :
    (received : List Bool) (b : Block) (c : Conn) (r : BlockRequester)
    → c.block_requester ≡ some r
    → c.misfires ≤ 3
    → (d : Conn) × (n : ℕ) × (request_block received b c ≡ ok d)
      × (d.outbox ≡ c.outbox ++ replicate (suc n) (request_of b))
      × (n + c.misfires ≤ 3)
      × (d.misfires ≤ 4)
      × (d.misfires ≡ 4 → d.to_weak ≡ true)
unfolding request_block
request_block_lem received b c r e h =
    let (d, ed, w) =
      wait_for_block-Waited received b (sent b r c)
        (record r { channels = set_channel b.idx open_channel r.channels }) refl h in
    (
      d,
      w.again,
      rw (send_request_goes b c r e) ed,
      w.sent_again ∙ append_assoc c.outbox (request_of b ∷ []) (replicate w.again (request_of b)),
      w.within,
      w.counted,
      w.weakened,
    )
