-- ===== src/Transfer.antt =====
-- Two clients that are connected: each handles what the other one wrote (peer/peerconn.go, peer/peermsghandlers.go).
-- The messages are taken as they are written: that the bytes of one side are these messages on the other side is
-- shown for the loops of a connection.
pub mod Table
pub mod Answers
pub mod Asked
pub mod Between
pub mod Download
pub mod Round
pub mod Serve
pub mod Start
pub mod Whole
use totorrent.Base.{ℕ, zero, suc, List, [], ◌++◌, Outcome, ok, err, panic, blocked, ◌>>=◌, Error}
use totorrent.Conn.State.{Conn}
use totorrent.Conn.Handlers.{Files, handle_all}

-- `writerChan` is read to its end.
abbrev pub sent_off : Conn → Conn
sent_off c = record c { outbox = [] }

-- The rounds of an exchange: the peer `s` handles what `c` wrote, then `c` handles what `s` wrote. The errors
-- that the handlers returned come last.
unfoldable pub exchange : ℕ → Files → Files → Conn → Conn → Outcome (Conn × Conn × List Error)
exchange zero fs gs c s = ok (c, s, [])
exchange (suc rounds) fs gs c s = do
  (s', es) ← handle_all gs c.outbox (sent_off s)
  (c', es') ← handle_all fs s'.outbox (sent_off c)
  (d, u, es'') ← exchange rounds fs gs c' (sent_off s')
  ok (d, u, es ++ (es' ++ es''))
