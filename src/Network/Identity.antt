-- ===== src/Network/Identity.antt =====
-- peer/peer.go and peer/clientpeer.go: the identity of a peer, and the peers of a tracker's answer. MD5, the
-- parser of IP addresses, bencode and the decoder of compact addresses are parameters.
use totorrent.Base.{
  ℕ, ◌+◌, ◌/◌, ◌%◌, List, [], ◌∷◌, ◌++◌, Bytes, Option, none, some, ltb, take, drop, replicate,
  if◌then◌else◌, bytes_eq, Outcome, ok, err, panic, io_error, ◌>>=◌,
}
use totorrent.Piece.Block.{ℤ, pos}
use totorrent.Network.Accept.{Hooks}

pub record Peer : Type 0 where
  pub ip : Bytes
  pub port : ℤ
  pub id : Bytes

-- `copy` to an array of 20 bytes that are zero.
abbrev pub copy_20 : Bytes → Bytes
copy_20 s = take 20 (s ++ replicate 20 0)

abbrev pub id_prefix : Bytes
id_prefix = b'-' ∷ b'B' ∷ b'N' ∷ b'0' ∷ b'0' ∷ b'0' ∷ b'1' ∷ b'-' ∷ []

-- `MakePeerId`, for the 12 bytes of `rand.Read`, or its error.
unfoldable pub make_peer_id : Option Bytes → Outcome Bytes
make_peer_id none = panic
make_peer_id (some b) = ok (copy_20 (id_prefix ++ b))

abbrev pub hex_digit : ℕ → ℕ
hex_digit n = if ltb n 10 then 48 + n else 87 + n

abbrev pub encode_to_string : Bytes → Bytes
encode_to_string [] = []
encode_to_string (b ∷ bs) = hex_digit (b / 16) ∷ hex_digit (b % 16) ∷ encode_to_string bs

unfoldable pub stringify_id : (Bytes → Bytes) → Bytes → Bytes
stringify_id md5_sum id = take 8 id ++ encode_to_string (md5_sum (drop 8 id))

-- A value of a dictionary of peers: `interface{}`.
pub data Value : Type 0 where
  text : Bytes → Value
  number : ℤ → Value
  other_value : Value

abbrev pub Dict : Type 0
Dict = List (Bytes × Value)

unfoldable pub lookup : Bytes → Dict → Option Value
lookup key [] = none
lookup key ((k, v) ∷ d) = if bytes_eq key k then some v else lookup key d

-- The assertions `.(string)` and `.(int64)`, which panic on another type, and on a missing key.
unfoldable pub as_string : Option Value → Outcome Bytes
as_string (some (text s)) = ok s
as_string (some (number n)) = panic
as_string (some other_value) = panic
as_string none = panic

unfoldable pub as_int64 : Option Value → Outcome ℤ
as_int64 (some (number n)) = ok n
as_int64 (some (text s)) = panic
as_int64 (some other_value) = panic
as_int64 none = panic

abbrev pub ip_key : Bytes
ip_key = b'i' ∷ b'p' ∷ []

abbrev pub peer_id_key : Bytes
peer_id_key = b'p' ∷ b'e' ∷ b'e' ∷ b'r' ∷ 0x20 ∷ b'i' ∷ b'd' ∷ []

abbrev pub port_key : Bytes
port_key = b'p' ∷ b'o' ∷ b'r' ∷ b't' ∷ []

-- The ID stays as it was where there is no key for it.
unfoldable pub id_from_dict : Dict → Bytes → Outcome Bytes
unfolding as_string lookup
id_from_dict d id = elim (lookup peer_id_key d) [
  | none ↦ ok id
  | some v ↦ as_string (some v) >>= λ s. ok (copy_20 s)
]

unfoldable pub from_dict_interface : (Bytes → Bytes) → Dict → Peer → Outcome Peer
unfolding as_string as_int64 lookup id_from_dict
from_dict_interface parse_ip d p = do
  ip ← as_string (lookup ip_key d)
  id ← id_from_dict d p.id
  port ← as_int64 (lookup port_key d)
  ok (record p { ip = parse_ip ip; id = id; port = port })

unfoldable pub from_node_addr : Bytes × ℕ → Peer → Peer
from_node_addr (ip, port) p = record p { ip = ip; port = pos port }

abbrev pub no_peer : Peer
no_peer = record { ip = []; port = pos 0; id = replicate 20 0 }

-- What `bencode.Unmarshal` finds: a string, a list, of which an element that is no dictionary is `none`, or
-- another type.
pub data Decoded : Type 0 where
  string : Bytes → Decoded
  items : List (Option Dict) → Decoded
  other_type : Decoded

unfoldable pub peers_of_addrs : List (Bytes × ℕ) → List Peer
peers_of_addrs [] = []
peers_of_addrs ((ip, port) ∷ as') = record no_peer { ip = ip; port = pos port } ∷ peers_of_addrs as'

unfoldable pub peers_of_items : (Bytes → Bytes) → List (Option Dict) → Outcome (List Peer)
unfolding from_dict_interface
peers_of_items parse_ip [] = ok []
peers_of_items parse_ip (none ∷ ds) = panic
peers_of_items parse_ip (some d ∷ ds) = do
  p ← from_dict_interface parse_ip d no_peer
  ps ← peers_of_items parse_ip ds
  ok (p ∷ ps)

-- `Peers.UnmarshalBencode`, which appends to the peers that are there. `unmarshal_binary` decodes the compact
-- addresses.
unfoldable pub unmarshal_bencode :
    (Bytes → Option Decoded)
    → (Bytes → Option (List (Bytes × ℕ)))
    → (Bytes → Bytes)
    → Bytes
    → List Peer
    → Outcome (List Peer)
unfolding peers_of_addrs peers_of_items
unmarshal_bencode unmarshal unmarshal_binary parse_ip b self = elim (unmarshal b) [
  | none ↦ err io_error
  | some (string s) ↦ elim (unmarshal_binary s) [
    | none ↦ err io_error
    | some cnas ↦ ok (self ++ peers_of_addrs cnas)
  ]
  | some (items ds) ↦ (do ps ← peers_of_items parse_ip ds; ok (self ++ ps))
  | some other_type ↦ err io_error
]

-- The peer that `NewClientPeer` makes, 127.0.0.1 with port 0.
pub record ClientPeer : Type 0 where
  pub peer : Peer
  pub hooks : Hooks

-- `onConnectFunc` is not used: the field is set to nil.
unfoldable pub new_client_peer : Option Bytes → Hooks → Outcome ClientPeer
unfolding make_peer_id
new_client_peer random h = do
  id ← make_peer_id random
  ok (record {
    peer = record { ip = 127 ∷ 0 ∷ 0 ∷ 1 ∷ []; port = pos 0; id = id };
    hooks = record h { on_connect = none };
  })
