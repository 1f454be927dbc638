-- ===== src/Startup.antt =====
-- main.go: the command line of the client, from the flags to the wait for the peers. The libraries, the random
-- bytes and the network are arguments. A torrent of no pieces is not modelled.
use totorrent.Base.{
  ℕ, ◌-◌, ◌/◌, false, List, [], ◌∷◌, Bytes, Option, none, some, map, length, ◌==◌, if◌then◌else◌,
  bytes_eq, Outcome, ok, err, panic, blocked, ◌>>=◌, or_fail, io_error, err_decode_file,
  err_download_torrent, err_inspect_torrent,
}
use totorrent.Util.Env.{mkdir_temp_or_panic}
use totorrent.FileInfo.Create.{FileInfo, DirEvents, new_file_info}
use totorrent.Announce.{MetaInfo, Info, Tracker, get_peers}
use totorrent.Network.{PeerEvent, Waited, connect_with_all_peers}
use totorrent.Network.Accept.{Hooks}
use totorrent.Network.Identity.{make_peer_id, new_client_peer}

pub record Flags : Type 0 where
  pub torrent_file : Bytes
  pub mode : Bytes
  pub download_dir : Bytes

-- `load_from_file` of the metainfo library; the directory for the blocks, what the file system says of the
-- download directory; the random bytes of the two calls of `MakePeerId`; `DefaultSendHandshakeFunc` as a hook; the trackers; and
-- what the peers report.
pub record World : Type 0 where
  pub load_from_file : Bytes → Option MetaInfo
  pub temp_dir : Option Bytes
  pub download_dir : DirEvents
  pub client_random : Option Bytes
  pub hooks : Hooks
  pub announce_random : Option Bytes
  pub tracker : Tracker
  pub events : List PeerEvent

-- `util.DecodeTorrentFile`
unfoldable pub decode_torrent_file : World → Bytes → Outcome MetaInfo
decode_torrent_file w path = or_fail (w.load_from_file path) err_decode_file

-- `piece.BLOCK_LENGTH`
abbrev pub block_length : ℕ
block_length = 16384

-- The file information, the ID of the client, and the peers that were waited for; `none`: it still waits.
pub record Downloading : Type 0 where
  pub file_info : FileInfo
  pub client_id : Bytes
  pub waited : Option Waited

unfoldable pub download_info : World → Bytes → MetaInfo → Info → Outcome Downloading
unfolding mkdir_temp_or_panic new_file_info make_peer_id new_client_peer get_peers
    connect_with_all_peers
download_info w download_dir m i = do
  blocks_dir ← mkdir_temp_or_panic w.temp_dir
  file_info ←
      new_file_info w.download_dir (length i.pieces / 20 - 1) i.info_length i.piece_length
        block_length download_dir blocks_dir false
  client ← new_client_peer w.client_random w.hooks
  peer_id ← make_peer_id w.announce_random
  response ← get_peers w.tracker m peer_id
  waited ← connect_with_all_peers 2 (map (λ p. p.0) response.peers) w.events
  ok (record { file_info = file_info; client_id = client.peer.id; waited = waited })

unfoldable pub download_torrent : World → Flags → Outcome Downloading
unfolding download_info decode_torrent_file
download_torrent w f =
    if length f.download_dir == 0
    then err err_download_torrent
    else if length f.torrent_file == 0
    then err err_download_torrent
    else do
      m ← decode_torrent_file w f.torrent_file
      i ← or_fail m.info io_error
      download_info w f.download_dir m i

-- `inspectTorrent` prints what it reads.
unfoldable pub inspect_torrent : World → Flags → Outcome (MetaInfo × Info)
unfolding decode_torrent_file
inspect_torrent w f =
    if length f.torrent_file == 0
    then err err_inspect_torrent
    else do m ← decode_torrent_file w f.torrent_file; i ← or_fail m.info io_error; ok (m, i)

-- How the two modes end.
pub data Ran : Type 0 where
  inspected : MetaInfo × Info → Ran
  downloaded : Downloading → Ran
  bad_flag : Ran

abbrev pub inspect_mode : Bytes
inspect_mode = b'i' ∷ b'n' ∷ b's' ∷ b'p' ∷ b'e' ∷ b'c' ∷ b't' ∷ []

abbrev pub download_mode : Bytes
download_mode = b'd' ∷ b'o' ∷ b'w' ∷ b'n' ∷ b'l' ∷ b'o' ∷ b'a' ∷ b'd' ∷ []

-- A bad mode is a warning, and no error.
unfoldable pub run : World → Flags → Outcome Ran
unfolding inspect_torrent download_torrent
run w f =
    if bytes_eq f.mode inspect_mode
    then (do r ← inspect_torrent w f; ok (inspected r))
    else if bytes_eq f.mode download_mode
    then (do r ← download_torrent w f; ok (downloaded r))
    else ok bad_flag

-- The exit code of `main`, which a panic does not reach.
unfoldable pub exit_code : Outcome Ran → Option ℕ
exit_code (ok r) = some 0
exit_code (err e) = some 1
exit_code panic = none
exit_code blocked = none
