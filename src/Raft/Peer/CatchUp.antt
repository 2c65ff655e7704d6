-- ===== src/Raft/Peer/CatchUp.antt =====
-- A follower catches up: `AppendEntriesRPC` of floyd/src/floyd_peer_thread.cc with
-- `ReplyAppendEntries` of floyd/src/floyd_impl.cc, round after round.
use moxie_simple.Raft.Peer.{Peer}
