-- ===== src/Raft/Primary/Elections.antt =====
-- When the primary thread of floyd/src/floyd_primary_thread.cc starts an election.
