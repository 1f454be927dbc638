-- ===== src/Conn/Requester/Waits.antt =====
-- What the waits of blockrequester.go leave alone.
use totorrent.Base.{
  ℕ, ◌+◌, ◌≡◌, refl, ◌∙◌, Bool, true, false, Bool-cases, inl, inr, List, [], ◌∷◌, ltb, ok, bind_ok,
}
use totorrent.Piece.Block.{Block}
use totorrent.Conn.State.{Conn}
use totorrent.Conn.Requester.{wait_for_block, send_request}
use totorrent.Conn.Requester.Sends.{send_request_lem}

-- The queue, the peer, and what the connections share.
pub record SameCore (c d : Conn) : Type 0 where
  pub same_queue : d.pieces_to_download_queue ≡ c.pieces_to_download_queue
  pub same_pieces : d.pieces ≡ c.pieces
  pub same_saved : d.saved_blocks ≡ c.saved_blocks
  pub same_seeding : d.is_seeding ≡ c.is_seeding
  pub same_peer : d.to_peer_id ≡ c.to_peer_id

one_of_ok : {c d : Conn} → ok c ≡ ok d → c ≡ d
one_of_ok e = cc e

same_core : (c d : Conn) → c ≡ d → SameCore c d
same_core c d e = record {
  same_queue = cc e;
  same_pieces = cc e;
  same_saved = cc e;
  same_seeding = cc e;
  same_peer = cc e;
}

trans_core : (c d e : Conn) → SameCore c d → SameCore d e → SameCore c e
trans_core c d e h k = record {
  same_queue = k.same_queue ∙ h.same_queue;
  same_pieces = k.same_pieces ∙ h.same_pieces;
  same_saved = k.same_saved ∙ h.same_saved;
  same_seeding = k.same_seeding ∙ h.same_seeding;
  same_peer = k.same_peer ∙ h.same_peer;
}

missed_core :
    (c : Conn) (n : ℕ) (weak : Bool) → SameCore c (record c { misfires = n; to_weak = weak })
missed_core c n weak = record {
  same_queue = refl;
  same_pieces = refl;
  same_saved = refl;
  same_seeding = refl;
  same_peer = refl;
}

sent_core : (b : Block) (c d : Conn) → send_request b c ≡ ok d → SameCore c d
sent_core b c d e =
    let (_, plan, _) = send_request_lem b c d e in
    record {
      same_queue = plan.same_queue;
      same_pieces = plan.same_pieces;
      same_saved = plan.same_saved;
      same_seeding = plan.same_seeding;
      same_peer = plan.same_peer;
    }

pub wait_for_block-SameCore :
    (received : List Bool) (b : Block) (c d : Conn)
    → wait_for_block received b c ≡ ok d
    → SameCore c d
unfolding wait_for_block
wait_for_block-SameCore [] b c d e = same_core c d (one_of_ok e)
wait_for_block-SameCore (true ∷ received) b c d e = same_core c d (one_of_ok e)
wait_for_block-SameCore (false ∷ received) b c d e = elim (Bool-cases (ltb 3 (c.misfires + 1))) [
  | inl over ↦
      let weak : Conn = record c { misfires = c.misfires + 1; to_weak = true } in
      trans_core c weak d (missed_core c (c.misfires + 1) true)
        (same_core weak d (one_of_ok (rw over at e)))
  | inr under ↦
      let missed : Conn = record c { misfires = c.misfires + 1 } in
      let (again, sent, rest) =
        bind_ok (send_request b missed) (wait_for_block received b) (rw under at e) in
      trans_core c missed d (missed_core c (c.misfires + 1) c.to_weak) (
        trans_core missed again d (sent_core b missed again sent)
          (wait_for_block-SameCore received b again d rest))
]
