-- ===== src/Conn/Queue/Next.antt =====
-- Which piece `RequestNextPiece` of peerconn.go takes.
use totorrent.Base.{
  ℕ, ◌≡◌, sym, ◌∙◌, ap, true, false, List, [], ◌∷◌, ◌++◌, Bytes, some, arith, length, All, map, ok,
  bind_ok, Outcome-Cases, is_ok, is_err, is_panic, is_blocked, Option-cases, inl, inr, ◌⊎◌,
}
use totorrent.Piece.Block.{Block}
use totorrent.Piece.Impl.{Piece, is_idle}
use totorrent.Piece.Safe.{SafePieces, get, insert, try_to_reserve}
use totorrent.Piece.Safe.Reserve.{Granted, taken_by, try_to_reserve-cases}
use totorrent.Piece.Safe.Table.{get-insert}
use totorrent.Conn.State.{Conn, mark_downloading}
use totorrent.Conn.Requester.{send_request}
use totorrent.Conn.Requester.Sends.{request_of, SamePlan, send_request_lem}
use totorrent.Conn.Queue.{send_requests, request_piece, next_piece, request_next_piece}
use mathlib.Core.List.{append_assoc, append-nil}

SamePlan-trans : {a b c : Conn} → SamePlan a b → SamePlan b c → SamePlan a c
SamePlan-trans p q = record {
  same_queue = q.same_queue ∙ p.same_queue;
  same_pieces = q.same_pieces ∙ p.same_pieces;
  same_from = q.same_from ∙ p.same_from;
  same_to = q.same_to ∙ p.same_to;
  same_misfires = q.same_misfires ∙ p.same_misfires;
  same_weak = q.same_weak ∙ p.same_weak;
  same_saved = q.same_saved ∙ p.same_saved;
  same_seeding = q.same_seeding ∙ p.same_seeding;
  same_peer = q.same_peer ∙ p.same_peer;
}

send_requests_lem :
    (bs : List Block) (c d : Conn)
    → send_requests bs c ≡ ok d
    → (d.outbox ≡ c.outbox ++ map request_of bs) × SamePlan c d
unfolding send_requests
send_requests_lem [] c d e = (ground (arith, append-nil c.outbox), ground arith)
send_requests_lem (b ∷ bs) c d e =
    let (m, em, rest) = bind_ok (send_request b c) (send_requests bs) e in
    let (out, plan, _) = send_request_lem b c m em in
    let (outs, plans) = send_requests_lem bs m d rest in
    (
      outs
          ∙ ap (λ o. o ++ map request_of bs) out
          ∙ append_assoc c.outbox (request_of b ∷ []) (map request_of bs),
      SamePlan-trans plan plans,
    )

-- A piece of the queue that some connection took before.
abbrev pub IsRefused : SafePieces → ℕ → Type 0
IsRefused t k = (p : Piece) × (get k t ≡ some p) × (is_idle p.status ≡ false)

-- The queue ran out: every piece of it was taken, and both peers are idle.
pub record RanOut (queue : List ℕ) (c d : Conn) (n : ℕ) : Type 0 where
  pub refused : All (IsRefused c.pieces) queue
  pub none_requested : n ≡ 0
  pub no_queue : d.pieces_to_download_queue ≡ []
  pub no_change : d.pieces ≡ c.pieces
  pub no_messages : d.outbox ≡ c.outbox
  pub same_saved : d.saved_blocks ≡ c.saved_blocks
  pub same_seeding : d.is_seeding ≡ c.is_seeding
  pub same_peer : d.to_peer_id ≡ c.to_peer_id
  pub not_downloading : (d.from_downloading ≡ false) × (d.to_downloading ≡ false)

-- The first idle piece of the queue was taken, and all its blocks were requested, in order.
pub record Took (queue : List ℕ) (c d : Conn) (n : ℕ) : Type 0 where
  pub skipped : List ℕ
  pub index : ℕ
  pub piece : Piece
  pub place : queue ≡ skipped ++ index ∷ d.pieces_to_download_queue
  pub refused : All (IsRefused c.pieces) skipped
  pub there : get index c.pieces ≡ some piece
  pub was_idle : is_idle piece.status ≡ true
  pub reserved : d.pieces ≡ insert index (taken_by piece c.to_peer_id) c.pieces
  pub requested : d.outbox ≡ c.outbox ++ map request_of piece.blocks
  pub all_blocks : n ≡ length piece.blocks
  pub same_saved : d.saved_blocks ≡ c.saved_blocks
  pub same_seeding : d.is_seeding ≡ c.is_seeding
  pub same_peer : d.to_peer_id ≡ c.to_peer_id
  pub are_downloading : (d.from_downloading ≡ true) × (d.to_downloading ≡ true)

try_to_reserve-IsRefused :
    (k : ℕ) (id : Bytes) (t u : SafePieces)
    → try_to_reserve k id t ≡ ok (u, false)
    → (t ≡ u) × IsRefused t k
unfolding try_to_reserve
try_to_reserve-IsRefused k id t u e = elim (Option-cases (get k t)) [
  | inl n ↦ absurd (ground (arith, n))
  | inr (p, n) ↦ (ground (arith, n), (p, n, ground (arith, n)))
]

abbrev pub busy : List ℕ → Conn → Conn
busy queue c = record c {
  pieces_to_download_queue = queue;
  from_downloading = true;
  to_downloading = true;
}

-- One round of the loop that returns: the reservation and what follows it.
abbrev Round : ℕ → List ℕ → Conn → Conn → ℕ → Type 0
Round k queue c d n =
    ((t : SafePieces) × (try_to_reserve k c.to_peer_id c.pieces ≡ ok (t, true))
      × (request_piece k (record (busy queue c) { pieces = t }) ≡ ok (d, n)))
    ⊎ ((t : SafePieces) × (try_to_reserve k c.to_peer_id c.pieces ≡ ok (t, false))
        × (next_piece queue (busy queue c) ≡ ok (d, n)))

next_piece-Round :
    (k : ℕ) (queue : List ℕ) (c : Conn) {d : Conn} {n : ℕ}
    → next_piece (k ∷ queue) c ≡ ok (d, n)
    → Round k queue c d n
unfolding next_piece mark_downloading
next_piece-Round k queue c e = elim (Outcome-Cases (try_to_reserve k c.to_peer_id c.pieces)) [
  | is_err x r ↦ absurd (ground (arith, r))
  | is_panic r ↦ absurd (ground (arith, r))
  | is_blocked r ↦ absurd (ground (arith, r))
  | is_ok (t, true) r ↦ inl (t, r, rw (r, next_piece) at e)
  | is_ok (t, false) r ↦ inr (t, r, rw (r, next_piece) at e)
]

request_piece_lem :
    (k : ℕ) (c : Conn) (p : Piece) {d : Conn} {n : ℕ}
    → get k c.pieces ≡ some p
    → request_piece k c ≡ ok (d, n)
    → (d.outbox ≡ c.outbox ++ map request_of p.blocks) × SamePlan c d × (n ≡ length p.blocks)
unfolding request_piece
request_piece_lem k c p {d} {n} there e =
    let (m, em, last) =
      bind_ok (send_requests p.blocks c) (λ s. ok (s, length p.blocks))
        (rw (there, request_piece) at e) in
    let (out, plan) = send_requests_lem p.blocks c d (ground (arith, em, last)) in
    (out, plan, ground (arith, last))

Granted-Took :
    (k : ℕ) (queue : List ℕ) (c d : Conn) (n : ℕ) (t : SafePieces)
    → Granted k c.to_peer_id c.pieces t true
    → request_piece k (record (busy queue c) { pieces = t }) ≡ ok (d, n)
    → Took (k ∷ queue) c d n
Granted-Took k queue c d n t (p, there, idle, et, _) e =
    let now : get k t ≡ some (taken_by p c.to_peer_id) =
      ground (arith, et, get-insert k k (taken_by p c.to_peer_id) c.pieces) in
    let (out, plan, count) =
      request_piece_lem k (record (busy queue c) { pieces = t }) (taken_by p c.to_peer_id) now e in
    record {
      skipped = [];
      index = k;
      piece = p;
      place = ap (◌∷◌ k) (sym plan.same_queue);
      refused = tt;
      there = there;
      was_idle = idle;
      reserved = plan.same_pieces ∙ sym et;
      requested = out;
      all_blocks = count;
      same_saved = plan.same_saved;
      same_seeding = plan.same_seeding;
      same_peer = plan.same_peer;
      are_downloading = (plan.same_from, plan.same_to);
    }

-- The pieces in front of the one that is taken were taken before.
skip :
    (k : ℕ) (queue : List ℕ) (c d : Conn) (n : ℕ)
    → IsRefused c.pieces k
    → RanOut queue (busy queue c) d n ⊎ Took queue (busy queue c) d n
    → RanOut (k ∷ queue) c d n ⊎ Took (k ∷ queue) c d n
skip k queue c d n r (inl o) = inl (record {
  refused = (r, o.refused);
  none_requested = o.none_requested;
  no_queue = o.no_queue;
  no_change = o.no_change;
  no_messages = o.no_messages;
  same_saved = o.same_saved;
  same_seeding = o.same_seeding;
  same_peer = o.same_peer;
  not_downloading = o.not_downloading;
})
skip k queue c d n r (inr o) = inr (record {
  skipped = k ∷ o.skipped;
  index = o.index;
  piece = o.piece;
  place = ap (◌∷◌ k) o.place;
  refused = (r, o.refused);
  there = o.there;
  was_idle = o.was_idle;
  reserved = o.reserved;
  requested = o.requested;
  all_blocks = o.all_blocks;
  same_saved = o.same_saved;
  same_seeding = o.same_seeding;
  same_peer = o.same_peer;
  are_downloading = o.are_downloading;
})

next_piece_lem :
    (queue : List ℕ) (c : Conn) {d : Conn} {n : ℕ}
    → next_piece queue c ≡ ok (d, n)
    → RanOut queue c d n ⊎ Took queue c d n
next_piece_lem [] c e =
    unfold next_piece mark_downloading in
    inl (record {
      refused = tt;
      none_requested = ground arith;
      no_queue = ground arith;
      no_change = ground arith;
      no_messages = ground arith;
      same_saved = ground arith;
      same_seeding = ground arith;
      same_peer = ground arith;
      not_downloading = (ground arith, ground arith);
    })
next_piece_lem (k ∷ queue) c {d} {n} e = elim (next_piece-Round k queue c e) [
  | inl (t, r, rest) ↦ elim (try_to_reserve-cases k c.to_peer_id c.pieces r) [
    | inl (_, no_way) ↦ absurd (ground (arith, no_way))
    | inr g ↦ inr (Granted-Took k queue c d n t g rest)
  ]
  | inr (t, r, rest) ↦
      skip k queue c d n (try_to_reserve-IsRefused k c.to_peer_id c.pieces t r).1
        (next_piece_lem queue (busy queue c) rest)
]

-- When it returns, `RequestNextPiece` has either found every piece of the queue taken, and marks both
-- peers as not downloading, or has reserved the first idle one and requested each of its blocks.
pub request_next_piece_lem :
    (c : Conn) {d : Conn} {n : ℕ}
    → request_next_piece c ≡ ok (d, n)
    → RanOut c.pieces_to_download_queue c d n ⊎ Took c.pieces_to_download_queue c d n
unfolding request_next_piece
request_next_piece_lem c e = next_piece_lem c.pieces_to_download_queue c e
