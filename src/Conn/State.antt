-- ===== src/Conn/State.antt =====
-- The state of one connection: `PeerConnection` of peer/peerconn.go with its `BlockRequester`
-- (peer/blockrequester.go), the flags of its two peers (peer/peer.go), and the shared `FileInfo`.
use totorrent.Base.{
  ℕ, zero, suc, Bool, false, List, [], ◌∷◌, ◌++◌, Bytes, Option, none, some, ◌==◌, if◌then◌else◌,
}
use totorrent.Piece.Block.{ℤ, pos, negsuc}
use totorrent.Piece.Safe.{SafePieces}
use totorrent.Wire.Msg.{PeerMsg}

-- A channel of `data map[int]chan bool`: made by `request`, closed by `onBlockReceive`. Only one
-- value is ever sent on it, and it has room for ten.
pub data Channel : Type 0 where
  open_channel closed_channel : Channel

pub record BlockRequester : Type 0 where
  pub channels : List (ℤ × Channel)
  pub total_num_of_blocks : ℕ
  pub blocks_left : ℤ

-- A file of `SaveBlock`: its name is made of the numbers of the piece and of the block.
pub record SavedBlock : Type 0 where
  pub piece_idx : ℕ
  pub block_idx : ℤ
  pub content : Bytes

-- `outbox` is what was written to `connWriterChan`. `to_peer_id` is `ToPeer.StringifyID()`.
pub record Conn : Type 0 where
  pub pieces_to_download_queue : List ℕ
  pub misfires : ℕ
  pub block_requester : Option BlockRequester
  pub outbox : List PeerMsg
  pub is_closed : Bool
  pub from_downloading : Bool
  pub to_downloading : Bool
  pub to_weak : Bool
  pub to_peer_id : Bytes
  pub pieces : SafePieces
  pub saved_blocks : List SavedBlock
  pub is_seeding : Bool

unfoldable pub write_peer_msg : PeerMsg → Conn → Conn
write_peer_msg m c = record c { outbox = c.outbox ++ m ∷ [] }

-- `MarkAsDownloading` and `MarkAsNotDownloading` of both peers.
unfoldable pub mark_downloading : Bool → Conn → Conn
mark_downloading on c = record c { from_downloading = on; to_downloading = on }

abbrev pub int_eq : ℤ → ℤ → Bool
int_eq (pos a) (pos b) = a == b
int_eq (negsuc a) (negsuc b) = a == b
int_eq (pos a) (negsuc b) = false
int_eq (negsuc a) (pos b) = false

-- `self.data[idx]`, and `self.data[idx] = ch`.
unfoldable pub channel_of : ℤ → List (ℤ × Channel) → Option Channel
channel_of k [] = none
channel_of k ((j, ch) ∷ m) = if int_eq j k then some ch else channel_of k m

unfoldable pub set_channel : ℤ → Channel → List (ℤ × Channel) → List (ℤ × Channel)
set_channel k ch [] = (k, ch) ∷ []
set_channel k ch ((j, old) ∷ m) = if int_eq j k then (k, ch) ∷ m else (j, old) ∷ set_channel k ch m

abbrev pub decrement : ℤ → ℤ
decrement (pos zero) = negsuc 0
decrement (pos (suc n)) = pos n
decrement (negsuc n) = negsuc (suc n)
