-- ===== src/Conn/Requester/History.antt =====
-- What `onBlockReceive` of blockrequester.go does behind any calls of `request` and `onBlockReceive`.
use totorrent.Base.{
  ℕ, ◌≡◌, refl, ◌∙◌, ap, subst, sym, Bool, true, false, if◌then◌else◌, Bool-cases, Option-cases,
  inl, inr, List, [], ◌∷◌, Option, none, some, arith, Outcome, ok, panic, blocked, ◌>>=◌, bind_ok,
}
use totorrent.Piece.Block.{ℤ, pos, Block}
use totorrent.Conn.State.{
  Conn, BlockRequester, Channel, open_channel, closed_channel, int_eq, channel_of, set_channel,
  decrement,
}
use totorrent.Conn.Requester.{
  send_request, on_block_receive, new_block_requester, default_was_block_received,
}
use totorrent.Conn.Requester.Receives.{channel_of-set_channel}
use totorrent.Conn.Requester.Sends.{sent, send_request_goes}
use totorrent.Conn.Handlers.Arriving.{channel_of-set_channel_ne, int_eq→eq}

-- `peerConn.blockRequester.onBlockReceive(b)`, on the requester that the connection has.
unfoldable pub receive_block : Block → Conn → Outcome Conn
receive_block b c = elim c.block_requester [
  | none ↦ panic
  | some r ↦ (do s ← on_block_receive b r; ok (record c { block_requester = some s }))
]

pub data Call : Type 0 where
  requests receives : Block → Call

unfoldable pub run : List Call → Conn → Outcome Conn
run [] c = ok c
run (requests b ∷ cs) c = do d ← send_request b c; run cs d
run (receives b ∷ cs) c = do d ← receive_block b c; run cs d

-- What happened last to the block of a number.
pub data Last : Type 0 where
  nothing_yet asked arrived : Last

abbrev pub last_of : ℤ → List Call → Last → Last
last_of j [] l = l
last_of j (requests b ∷ cs) l = last_of j cs (if int_eq b.idx j then asked else l)
last_of j (receives b ∷ cs) l = last_of j cs (if int_eq b.idx j then arrived else l)

-- The blocks that are left, where `z` were.
abbrev pub left_behind : List Call → ℤ → ℤ
left_behind [] z = z
left_behind (requests b ∷ cs) z = left_behind cs z
left_behind (receives b ∷ cs) z = left_behind cs (decrement z)

-- A block that was requested is taken, one that never was blocks the call, and one that has arrived and was not requested
-- again panics.
abbrev pub Answers : Last → Outcome Conn → Type 0
Answers nothing_yet o = o ≡ blocked
Answers asked o = (d : Conn) × (o ≡ ok d)
Answers arrived o = o ≡ panic

abbrev pub is_arrived : Last → Bool
is_arrived l = elim l [ nothing_yet ↦ false | asked ↦ false | arrived ↦ true ]

abbrev channel_for : Last → Option Channel
channel_for l = elim l [
  | nothing_yet ↦ none
  | asked ↦ some open_channel
  | arrived ↦ some closed_channel
]

-- The channel for `j` tells what happened last to it.
abbrev Tells : ℤ → BlockRequester → Last → Type 0
Tells j r l = channel_of j r.channels ≡ channel_for l

Tells-set_channel :
    (i j : ℤ) (m : Last) (ch : Channel) (r s : BlockRequester) (l : Last)
    → channel_for m ≡ some ch
    → s.channels ≡ set_channel i ch r.channels
    → Tells j r l
    → Tells j s (if int_eq i j then m else l)
Tells-set_channel i j m ch r s l same e t = elim (Bool-cases (int_eq i j)) [
  | inl h ↦
      rw (h, e)
        (subst (λ k. channel_of j (set_channel k ch r.channels) ≡ some ch) (sym (int_eq→eq i j h))
            (channel_of-set_channel j ch r.channels)
          ∙ sym same)
  | inr h ↦ rw (h, e) (channel_of-set_channel_ne i j ch r.channels h ∙ t)
]

-- What a run comes to, from a connection with the requester `r`.
record Ran (cs : List Call) (r : BlockRequester) (d : Conn) : Type 0 where
  requester : BlockRequester
  has : d.block_requester ≡ some requester
  tells : (j : ℤ) (l : Last) → Tells j r l → Tells j requester (last_of j cs l)
  left : requester.blocks_left ≡ left_behind cs r.blocks_left

receive_block-cases :
    (b : Block) (c d : Conn) (r : BlockRequester)
    → c.block_requester ≡ some r
    → receive_block b c ≡ ok d
    → (s : BlockRequester) × (d.block_requester ≡ some s)
      × (s.channels ≡ set_channel b.idx closed_channel r.channels)
      × (s.blocks_left ≡ decrement r.blocks_left)
unfolding receive_block on_block_receive
receive_block-cases b c d r h e = elim (Option-cases (channel_of b.idx r.channels)) [
  | inl n ↦ absurd (ground (arith, h, n, e))
  | inr (closed_channel, n) ↦ absurd (ground (arith, h, n, e))
  | inr (open_channel, n) ↦
      let s : BlockRequester = record r {
        channels = set_channel b.idx closed_channel r.channels;
        blocks_left = decrement r.blocks_left;
      } in
      (s, ground (arith, h, n, e), refl, refl)
]

run-Ran :
    (cs : List Call) (c d : Conn) (r : BlockRequester)
    → c.block_requester ≡ some r
    → run cs c ≡ ok d
    → Ran cs r d
unfolding run
run-Ran [] c d r h e = record {
  requester = r;
  has = ground (arith, h, e);
  tells = λ j l t. t;
  left = refl;
}
run-Ran (requests b ∷ cs) c d r h e =
    let q : BlockRequester = record r { channels = set_channel b.idx open_channel r.channels } in
    let rest : run cs (sent b r c) ≡ ok d = rw (send_request_goes b c r h) at e in
    let ran = run-Ran cs (sent b r c) d q refl rest in
    record {
      requester = ran.requester;
      has = ran.has;
      tells =
          λ j l t. ran.tells j _ (Tells-set_channel b.idx j asked open_channel r q l refl refl t);
      left = ran.left;
    }
run-Ran (receives b ∷ cs) c d r h e =
    let (m, em, rest) = bind_ok (receive_block b c) (run cs) e in
    let (s, hs, ch, left) = receive_block-cases b c m r h em in
    let ran = run-Ran cs m d s hs rest in
    record {
      requester = ran.requester;
      has = ran.has;
      tells =
          λ j l t. ran.tells j _ (Tells-set_channel b.idx j arrived closed_channel r s l refl ch t);
      left = ran.left ∙ ap (left_behind cs) left;
    }

receive_block-Answers :
    (b : Block) (c : Conn) (r : BlockRequester) (l : Last)
    → c.block_requester ≡ some r
    → Tells b.idx r l
    → Answers l (receive_block b c)
unfolding receive_block on_block_receive
receive_block-Answers b c r nothing_yet h t = rw (h, receive_block, on_block_receive, t) refl
receive_block-Answers b c r asked h t = rw (h, receive_block, on_block_receive, t) (_, refl)
receive_block-Answers b c r arrived h t = rw (h, receive_block, on_block_receive, t) refl

was_received-Tells :
    (j : ℤ) (r : BlockRequester) (l : Last)
    → Tells j r l
    → default_was_block_received (channel_of j r.channels) ≡ is_arrived l
unfolding default_was_block_received
was_received-Tells j r nothing_yet t = rw t refl
was_received-Tells j r asked t = rw t refl
was_received-Tells j r arrived t = rw t refl

-- On a connection with a new requester of `n` blocks, behind any calls of `request` and
-- `onBlockReceive` that returned: the next `onBlockReceive` of a block blocks for ever if its
-- number was never requested, returns if a request was the last that happened to it, and panics if
-- an arrival was. `DefaultWasBlockReceived` on the channel of that number tells whether it was an
-- arrival, and `blocksLeft` is `n` less one for each arrival.
pub receive_block-behind :
    (n : ℕ) (cs : List Call) (b : Block) (c d : Conn)
    → c.block_requester ≡ some (new_block_requester n)
    → run cs c ≡ ok d
    → Answers (last_of b.idx cs nothing_yet) (receive_block b d)
      × ((q : BlockRequester) × (d.block_requester ≡ some q)
          × (default_was_block_received (channel_of b.idx q.channels)
              ≡ is_arrived (last_of b.idx cs nothing_yet))
          × (q.blocks_left ≡ left_behind cs (pos n)))
unfolding new_block_requester channel_of
receive_block-behind n cs b c d h e =
    let ran = run-Ran cs c d (new_block_requester n) h e in
    let told = ran.tells b.idx nothing_yet refl in
    (
      receive_block-Answers b d ran.requester _ ran.has told,
      (ran.requester, ran.has, was_received-Tells b.idx ran.requester _ told, ran.left),
    )
