-- ===== src/Tests/Random.antt =====
-- Runs of the helpers that make random data, and of those of util.go.
use totorrent.Base.{◌≡◌, refl, false, [], ◌∷◌, some, none, ok, panic}
use totorrent.Piece.Block.{new_block, pos}
use totorrent.Wire.Msg.{choked, have, piece, get_payload}
use totorrent.Wire.Samples.{Sample, random_peer_msg, filter_peer_msgs_of_type, set_payload}
use totorrent.Util.Env.{rand_range, get_ip_and_port_from_net_addr, other_addr, is_file}
use totorrent.FileInfo.Random.{new_random_block}

-- A number between 3 and 8 is wanted, and 10 comes.
rand_range-above : rand_range (λ n. 2) 3 8 ≡ ok 10
unfolding rand_range
rand_range-above = refl

rand_range-same : rand_range (λ n. 2) 3 3 ≡ panic
unfolding rand_range
rand_range-same = refl

-- Block 7 of piece 4 is asked for.
new_random_block-swapped :
    new_random_block (λ n. 0) (λ n. 1) (λ n. some (5 ∷ [])) 4 7 1
    ≡ ok (new_block (pos 4) 7 65536 1 (5 ∷ []))
unfolding new_random_block
new_random_block-swapped = refl

abbrev sample : Sample
sample = record {
  kind = 5;
  index = 1;
  block_idx = 0;
  piece_idx = 2;
  begin = 0;
  block_length = 1;
  buff = 9 ∷ [];
}

random_peer_msg-bitfield : random_peer_msg sample ≡ panic
unfolding random_peer_msg
random_peer_msg-bitfield = refl

filters :
    filter_peer_msgs_of_type (choked [] ∷ have [] ∷ choked (1 ∷ []) ∷ []) (some (choked []))
    ≡ choked [] ∷ choked (1 ∷ []) ∷ []
unfolding filter_peer_msgs_of_type
filters = refl

sets : get_payload (set_payload (piece (1 ∷ [])) (2 ∷ [])) ≡ 2 ∷ []
unfolding set_payload get_payload
sets = refl

tells_no_address : get_ip_and_port_from_net_addr other_addr ≡ ([], 0)
unfolding get_ip_and_port_from_net_addr
tells_no_address = refl

is_file-missing : is_file none ≡ false
unfolding is_file
is_file-missing = refl
