-- ===== src/Swarm/Peers.antt =====
-- The peers that hold pieces, and lists of connections (peerconn.go, piece.go).
use totorrent.Base.{
  ℕ, zero, suc, ◌≡◌, refl, ap, Bool, true, false, ◌||◌, List, [], ◌∷◌, ◌++◌, Bytes, some, map,
  get_elem?, set, bytes_eq, bytes_eq_refl, arith,
}
use totorrent.Piece.Impl.{Piece, PieceStatus, idle, downloading, done}
use totorrent.Piece.Safe.Reserve.{taken_by}
use totorrent.Piece.Safe.Entries.{Every, Every-insert, Every-get}
use totorrent.Conn.State.{Conn}
use totorrent.Conn.Handlers.Table.{IsTableStable}
use totorrent.Swarm.{Swarm}

-- The peers of the connections.
abbrev pub peers : Swarm → List Bytes
peers s = map (λ (c : Conn). c.to_peer_id) s.conns

abbrev pub known : List Bytes → Bytes → Bool
known [] id = false
known (x ∷ xs) id = bytes_eq x id || known xs id

-- A piece that is being downloaded is so by a peer that is connected, or was.
abbrev pub is_held : List Bytes → Piece → Bool
is_held ids p = elim p.status [ idle ↦ true | downloading ↦ known ids p.downloader | done ↦ true ]

abbrev pub IsHeld : List Bytes → Piece → Type 0
IsHeld ids p = is_held ids p ≡ true

-- The connection that changes is to the same peer.
pub map-set_same :
    (cs : List Conn) (i : ℕ) (c d : Conn)
    → get_elem? cs i ≡ some c
    → d.to_peer_id ≡ c.to_peer_id
    → map (λ (x : Conn). x.to_peer_id) (set cs i d) ≡ map (λ (x : Conn). x.to_peer_id) cs
map-set_same [] i c d e h = refl
map-set_same (x ∷ cs) zero c d e h = cc (e, h)
map-set_same (x ∷ cs) (suc i) c d e h = ap (◌∷◌ x.to_peer_id) (map-set_same cs i c d e h)

pub known-get :
    (cs : List Conn) (i : ℕ) (c : Conn)
    → get_elem? cs i ≡ some c
    → known (map (λ (x : Conn). x.to_peer_id) cs) c.to_peer_id ≡ true
known-get [] i c e = absurd (ground (arith, e))
known-get (x ∷ cs) zero c e =
    let same : x ≡ c = cc e in
    rw (ap (λ (y : Conn). y.to_peer_id) same, bytes_eq_refl c.to_peer_id) refl
known-get (x ∷ cs) (suc i) c e = ground (arith, known-get cs i c e)

known-more : (xs ys : List Bytes) (id : Bytes) → known xs id ≡ true → known (xs ++ ys) id ≡ true
known-more [] ys id h = absurd (ground (arith, h))
known-more (x ∷ xs) ys id h = ground (arith, known-more xs ys id)

pub IsHeld-more : (xs ys : List Bytes) (p : Piece) → IsHeld xs p → IsHeld (xs ++ ys) p
IsHeld-more xs ys p h = held p.status refl
  where
    held : (s : PieceStatus) → p.status ≡ s → IsHeld (xs ++ ys) p
    held idle e = rw e refl
    held downloading e = rw e (known-more xs ys p.downloader (rw e at h))
    held done e = rw e refl

pub IsHeld-IsTableStable :
    (ids : List Bytes) (id : Bytes) → known ids id ≡ true → IsTableStable id (Every (IsHeld ids))
IsHeld-IsTableStable ids id k = record {
  refills = λ j q bs t g c h. Every-insert (IsHeld ids) j _ t (Every-get (IsHeld ids) j t g h) h;
  takes = λ j q t g i h. Every-insert (IsHeld ids) j (taken_by q id) t k h;
  completes = λ j q t g h. Every-insert (IsHeld ids) j _ t refl h;
}
