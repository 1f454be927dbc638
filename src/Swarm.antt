-- ===== src/Swarm.antt =====
-- All connections of one client, which share its table of pieces and its files: peer/peerconn.go and peer/peer.go.
-- `listenForMessages` runs `PeerMsgFunc` on a goroutine for each message of each connection, and the goroutines of
-- `request` wait beside them. A handler, or a wait that ends, is one step where nothing runs beside it; where other
-- handlers do, each access of it to what they share is a step.
pub mod Shared
pub mod Changes
pub mod Invariant
pub mod Peers
pub mod Progress
use totorrent.Base.{
  ℕ, zero, ◌≡◌, Bool, true, false, List, [], ◌∷◌, ◌++◌, Bytes, Option, none, some, get_elem?, set,
  Outcome, ok, err, panic, blocked, Error, ◌==◌,
}
use totorrent.Piece.Block.{Block}
use totorrent.Piece.Safe.{SafePieces, try_to_reserve, mark_as_done, total_undone_pieces_left}
use totorrent.FileInfo.{get_block}
use totorrent.Wire.Msg.{PeerMsg}
use totorrent.Conn.State.{Conn, SavedBlock, write_peer_msg}
use totorrent.Conn.Requester.{wait_for_block}
use totorrent.Conn.Handlers.{Files, default_peer_msg_func}

-- What the connections share: the `FileInfo` of the client, with the files behind it, and its flag.
pub record Client : Type 0 where
  pub pieces : SafePieces
  pub saved_blocks : List SavedBlock
  pub is_seeding : Bool
  pub from_downloading : Bool

-- `FromPeer` and `PeerConnections`. What a connection holds of the shared fields is out of date.
pub record Swarm : Type 0 where
  pub client : Client
  pub conns : List Conn

abbrev pub client_of : Conn → Client
client_of c = record {
  pieces = c.pieces;
  saved_blocks = c.saved_blocks;
  is_seeding = c.is_seeding;
  from_downloading = c.from_downloading;
}

-- The connection, with the shared fields as they are now.
abbrev pub seen_by : Client → Conn → Conn
seen_by s c = record c {
  pieces = s.pieces;
  saved_blocks = s.saved_blocks;
  is_seeding = s.is_seeding;
  from_downloading = s.from_downloading;
}

-- `NewPeerConnection` to the peer `id`.
unfoldable pub new_peer_connection : Client → Bytes → Conn
new_peer_connection s id = record {
  pieces_to_download_queue = [];
  misfires = 0;
  block_requester = none;
  outbox = [];
  is_closed = false;
  from_downloading = s.from_downloading;
  to_downloading = false;
  to_weak = false;
  to_peer_id = id;
  pieces = s.pieces;
  saved_blocks = s.saved_blocks;
  is_seeding = s.is_seeding;
}

-- `self.PeerConnections = append(self.PeerConnections, peerConn)`
unfoldable pub connect : Bytes → Swarm → Swarm
connect id s = record s { conns = s.conns ++ new_peer_connection s.client id ∷ [] }

abbrev pub put_back : ℕ → Swarm → Conn → Swarm
put_back i s d = record { client = client_of d; conns = set s.conns i d }

-- What `SendHandshakeFunc` and `OnConnectFunc` write on connection `i`; `none`: there is no such connection.
unfoldable pub greet : ℕ → PeerMsg → Swarm → Option Swarm
greet i m s = elim (get_elem? s.conns i) [
  | none ↦ none
  | some c ↦ some (put_back i s (write_peer_msg m (seen_by s.client c)))
]

-- The handler of a message on connection `i`; `none`: there is no such connection.
unfoldable pub receive : Files → ℕ → PeerMsg → Swarm → Option (Outcome (Swarm × Option Error))
receive fs i m s = elim (get_elem? s.conns i) [
  | none ↦ none
  | some c ↦ elim (default_peer_msg_func fs m (seen_by s.client c)) [
    | ok (d, e) ↦ some (ok (put_back i s d, e))
    | err e ↦ some (err e)
    | panic ↦ some panic
    | blocked ↦ some blocked
  ]
]

-- One wait for a block on connection `i` that ended, in vain or not.
unfoldable pub wait_ends : ℕ → Bool → Block → Swarm → Option (Outcome Swarm)
wait_ends i received b s = elim (get_elem? s.conns i) [
  | none ↦ none
  | some c ↦ elim (wait_for_block (received ∷ []) b (seen_by s.client c)) [
    | ok d ↦ some (ok (put_back i s d))
    | err e ↦ some (err e)
    | panic ↦ some panic
    | blocked ↦ some blocked
  ]
]

-- One access of a handler to what it shares with the others. The methods of the table hold its mutex, and so are
-- one access each. The fields of the connection, its requester and the flags have no common lock: a handler may leave
-- anything in them, as it may overwrite what another one wrote since it read them. No access raises the number of
-- pieces that are left, so a 0 that a handler has read is there still when it sets `IsSeeding`.
pub data Access (c : Conn) : Conn → Type 0 where
  overwrites :
      (d : Conn)
      → d.pieces ≡ c.pieces
      → d.is_seeding ≡ c.is_seeding
      → d.to_peer_id ≡ c.to_peer_id
      → Access c d
  reserves :
      (k : ℕ) (t : SafePieces) (r : Bool)
      → try_to_reserve k c.to_peer_id c.pieces ≡ ok (t, r)
      → Access c (record c { pieces = t })
  finishes :
      (k : ℕ) (t : SafePieces) → mark_as_done k c.pieces ≡ ok t → Access c (record c { pieces = t })
  reads :
      (is_dir : Bool) (file : Option Bytes) (k begin l : ℕ) (t : SafePieces) (o : Option Block)
      → get_block is_dir file k begin l c.is_seeding c.pieces ≡ ok (t, o)
      → Access c (record c { pieces = t })
  seeds :
      (total_undone_pieces_left c.pieces == 0) ≡ true → Access c (record c { is_seeding = true })

-- What a handler does to its connection, one access after the other.
pub data Accesses (c : Conn) : Conn → Type 0 where
  no_access : Accesses c c
  and_then : (d e : Conn) → Accesses c d → Access d e → Accesses c e

-- What can happen next: a connection, a message with whatever the file system does, one access of a handler of
-- connection `i`, or the end of a wait.
pub data Step : Swarm → Swarm → Type 0 where
  connects : (id : Bytes) (s t : Swarm) → connect id s ≡ t → Step s t
  greets : (i : ℕ) (m : PeerMsg) (s t : Swarm) → greet i m s ≡ some t → Step s t
  receives :
      (fs : Files) (i : ℕ) (m : PeerMsg) (e : Option Error) (s t : Swarm)
      → receive fs i m s ≡ some (ok (t, e))
      → Step s t
  accesses :
      (i : ℕ) (s t : Swarm) (c d : Conn)
      → get_elem? s.conns i ≡ some c
      → Access (seen_by s.client c) d
      → put_back i s d ≡ t
      → Step s t
  waits :
      (i : ℕ) (received : Bool) (b : Block) (s t : Swarm)
      → wait_ends i received b s ≡ some (ok t)
      → Step s t

-- Any interleaving of the connections.
pub data Reach (s : Swarm) : Swarm → Type 0 where
  here : Reach s s
  next : (t u : Swarm) → Reach s t → Step t u → Reach s u

-- Before the first connection.
abbrev pub start : SafePieces → Bool → Swarm
start t is_seeding = record {
  client = record {
    pieces = t;
    saved_blocks = [];
    is_seeding = is_seeding;
    from_downloading = false;
  };
  conns = [];
}
