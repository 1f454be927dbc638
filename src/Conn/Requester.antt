-- ===== src/Conn/Requester.antt =====
-- peer/blockrequester.go: requests of blocks, their arrival, and what happens when they stay out.
pub mod Receives
pub mod History
pub mod Sends
pub mod Waits
use totorrent.Base.{
  ℕ, zero, suc, ◌+◌, Bool, true, false, List, [], ◌∷◌, ◌++◌, Bytes, Option, none, some, ltb, ◌==◌,
  if◌then◌else◌, Outcome, ok, err, panic, blocked, ◌>>=◌,
}
use totorrent.Piece.Block.{ℤ, pos, Block}
use totorrent.Wire.Msg.{PeerMsg, request}
use totorrent.Wire.Build.{build_peer_request_msg}
use totorrent.Conn.State.{
  Channel, open_channel, closed_channel, BlockRequester, Conn, write_peer_msg, channel_of,
  set_channel, decrement,
}

unfoldable pub new_block_requester : ℕ → BlockRequester
new_block_requester total_num_of_blocks = record {
  channels = [];
  total_num_of_blocks = total_num_of_blocks;
  blocks_left = pos total_num_of_blocks;
}

unfoldable pub reset : BlockRequester → BlockRequester
reset r = record r { blocks_left = pos r.total_num_of_blocks }

-- `request` up to the point where it waits: a new channel, and a REQUEST message. A nil requester
-- panics.
unfoldable pub send_request : Block → Conn → Outcome Conn
send_request b c = elim c.block_requester [
  | none ↦ panic
  | some r ↦ (do
    m ← build_peer_request_msg (some b)
    ok (
        write_peer_msg m (record c {
          block_requester =
              some (record r { channels = set_channel b.idx open_channel r.channels });
        })))
]

abbrev pub block_request_total_allowed_misfires : ℕ
block_request_total_allowed_misfires = 3

-- `DefaultWasBlockReceived` on a channel, as it is when the timer runs out: a nil channel and one on which nothing
-- was sent wait in vain, and `onBlockReceive` sends on the channel before it closes it. The goroutine of `request` takes
-- the channel out of `data` when it begins.
unfoldable pub default_was_block_received : Option Channel → Bool
default_was_block_received none = false
default_was_block_received (some open_channel) = false
default_was_block_received (some closed_channel) = true

-- The goroutine of `request`: each entry of the list is what the next `wasBlockReceivedFunc` call
-- returns. The result is the connection behind these waits, whether or not the goroutine waits once more.
unfoldable pub wait_for_block : List Bool → Block → Conn → Outcome Conn
wait_for_block [] b c = ok c
wait_for_block (true ∷ received) b c = ok c
wait_for_block (false ∷ received) b c =
    let missed = record c { misfires = c.misfires + 1 } in
    if ltb block_request_total_allowed_misfires missed.misfires
    then ok (record missed { to_weak = true })
    else do again ← send_request b missed; wait_for_block received b again

-- The whole of `request`.
unfoldable pub request_block : List Bool → Block → Conn → Outcome Conn
request_block received b c = do sent ← send_request b c; wait_for_block received b sent

-- A send on a nil channel blocks for ever, with the mutex held; one on a closed channel panics. The
-- handlers pass no `fullPieceDownloadedChan`.
unfoldable pub on_block_receive : Block → BlockRequester → Outcome BlockRequester
on_block_receive b r = elim (channel_of b.idx r.channels) [
  | none ↦ blocked
  | some open_channel ↦ ok (record r {
    channels = set_channel b.idx closed_channel r.channels;
    blocks_left = decrement r.blocks_left;
  })
  | some closed_channel ↦ panic
]
