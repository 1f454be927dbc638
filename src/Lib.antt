-- ===== src/Lib.antt =====
-- totorrent is a BitTorrent client. This library models its core and proves what makes it correct.
--
-- The parts, and the files that model them:
--
-- Util: util/util.go and util/bitfield.go. `Util/Slices` has the slice functions by which a connection
-- queues pieces, `Util/Bitfield` the bitfield of a BITFIELD message (`set_bit` is `Set`, `has` is `Has`,
-- `as_int_slice` is `AsIntSlice`). An index behind the bytes is a panic, as in Go.
--
-- Piece: piece/block.go and piece/piece.go. `Piece/Block` and `Piece/Impl` have a block, a piece, and
-- `CalculateNewPiece`; offsets are `uint32` and wrap. `Piece/Safe` is the table that all connections
-- share (`SafePiecesImpl`): each of its methods is one step, since it runs under the mutex, and an
-- interleaving of connections is a list of calls (`Piece/Safe/Reserve`).
--
-- Wire: peer/peermsg.go. `Wire/Msg` has the message types and `Bytes`, `Wire/Build` the builders,
-- `Wire/Parse` `NewPeerMsgFromBuffer`, `IsPeerHandshakeMsg` and `ParseRawPeerMsgLength`, `Wire/Fields` the
-- getters, `Wire/Bitfields` the BITFIELD message and the table of pieces.
--
-- Conn: peer/peerconn.go, peer/blockrequester.go and peer/peermsghandlers.go. `Conn/Reader` is
-- `ReadPeerMsg` over the list of what `Conn.Read` returns; `Conn/State` the state of a connection, with
-- the messages written to `connWriterChan` as its `outbox`; `Conn/Requester` the block requester, whose
-- waits are a list of Booleans; `Conn/Queue` is `RequestNextPiece`; `Conn/Handlers` the handlers of
-- `DefaultPeerMsgFunc`, each a function from the connection to the connection and the error it returns.
--
-- `Conn/Loops` has the goroutine of `NewPeerConnection` that writes, over the list of what `Conn.Write`
-- does, and `StartPeerMsgReaderLoop`; `handle_all` of `Conn/Handlers` is the loop of `listenForMessages`
-- that hands on the messages, one handler after the other.
--
-- FileInfo: fileinfo/fileinfo.go: `NewFileInfo` in `FileInfo/Create`, with its pieces, `GetBlock` of a seed, `SaveBlock`, with the
-- names of its files in `FileInfo/Names`, and `assembleBlocks` in `FileInfo/Assemble`, over the files of
-- the two directories.
--
-- Swarm: all connections of one client, which share its pieces, its files and its flags (the `FromPeer` of
-- peer/peerconn.go, and `PeerConnections` of peer/peer.go). `Step` is a new connection, a message
-- written on one by its hooks, the handler of one message with nothing beside it, one access of a handler that
-- runs beside others (`Access`), or the end of one wait of `request`; `Reach` is any interleaving of them. An access is one
-- call of the shared table, whose methods hold a mutex, or any change of the fields that no lock guards: the
-- queue, the requester, the flags. `Swarm/Shared` relates the handlers to their accesses.
-- Messages and the errors of the file system are chosen by the environment, and a wait may end for any
-- block, so what is proved of `Reach` holds also for runs that the network cannot bring about.
--
-- Transfer: two clients that are connected. `exchange` is the rounds in which each handles what the other
-- one wrote, with the handlers of `Conn/Handlers`. `Transfer/Table` and `Transfer/Answers` have the pieces and
-- the messages of a torrent of whole blocks, `Transfer/Serve` the seed, `Transfer/Asked` and
-- `Transfer/Between` the client that asks, `Transfer/Round` one piece, `Transfer/Whole` all pieces,
-- `Transfer/Start` the start with `NewFileInfo` and the BITFIELD message.
--
-- Announce: announce/announce.go: the usable announce URLs, the loop of `QueryAnnounceUrls`, the
-- parameters of the query, and `GetPeers`.
--
-- Network: `ConnectWithAllPeers` of peer/peer.go, with `connectWithPeer` and `listenForMessages` of
-- peer/peerconn.go as the list of what they report. `Network/Accept` has `ListenForPeers`, `acceptConn`,
-- `DialPeer` and `Close` over what the sockets do, `Network/Identity` the identity of a peer, the peers of
-- a tracker's answer (`Peers.UnmarshalBencode`) and `NewClientPeer` of peer/clientpeer.go.
--
-- Startup: main.go, from the flags to the exit code: `download_torrent` makes the pieces, asks the
-- trackers and waits for the peers.
--
-- The helpers of the tests that stand among the code are `Wire/Samples`, `FileInfo/Random`,
-- `Network/TestPeer` and `Util/Env`, with the random numbers and the file system as arguments.
--
-- Base has what they share: lists over the native numbers, tests, words of 32 bits in big-endian order,
-- and `Outcome`: a result, an error, a panic, or a call that blocks forever. `Tests` runs the theorems at
-- concrete inputs.
--
-- How they interact: the reader hands a message to a handler; the handler asks the table of pieces, the
-- bitfield and the file information, and queues pieces on its connection; `RequestNextPiece` reserves a
-- piece in the shared table and has the requester send a REQUEST for each block; a PIECE message counts
-- down the requester, and the last one marks the piece as done.
--
-- Bounds: a number that Go stores in 32 bits is reduced modulo 2 ^ 32 where the code converts it; an
-- `int` is a natural number, or `ℤ` where it can be negative, and is assumed not to overflow 64 bits. The
-- loop of `StartPeerMsgReaderLoop` has fuel, one round more than there are reads, which is enough since
-- every message takes a read. Every other loop is a recursion on a list or a count, and the wait loops of
-- `ReadPeerMsg` and `request` end with the list of what the network does.
--
-- Not modelled: sockets, goroutines and sleeps, printing, the `String` methods, the generated
-- mocks of the tests, a torrent of no pieces, and the vendored libraries, of which the calls are
-- arguments. The handlers take the error of `assembleBlocks` as an input. Except for `Reach`, a handler is one
-- step: in the code each message has a goroutine, and two handlers of one connection can interleave on its queue
-- and its requester.
pub mod Announce
pub mod Base
pub mod Conn
pub mod FileInfo
pub mod Network
pub mod Piece
pub mod Startup
pub mod Swarm
pub mod Tests
pub mod Transfer
pub mod Util
pub mod Wire
