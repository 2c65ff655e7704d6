-- ===== src/Raft/Vote/Counting.antt =====
-- What a candidate makes of the answers to its requests, in `RequestVoteRPC` of
-- floyd/src/floyd_peer_thread.cc.
use moxie_simple.Base.{◌<◌, ◌≡◌, false, arith}
use moxie_simple.Raft.{RequestVoteResponse}
use moxie_simple.Raft.Node.{
  FloydImpl, follower, candidate, become_follower, store_term_and_vote, with_context,
}
use moxie_simple.Raft.Vote.{receive_vote}

-- A candidate that is denied its vote takes the term of the answer, also one before its own: the
-- term, which is stored, goes back.
pub receive_vote-lowers :
    (res : RequestVoteResponse) (s : FloydImpl)
    → s.context.role ≡ candidate
    → res.vote_granted ≡ false
    → res.term < s.context.current_term
    → let s' = (receive_vote res s).1 in
      (s'.context.current_term < s.context.current_term)
      × (s'.meta.current_term ≡ res.term)
      × (s'.context.role ≡ follower)
unfolding receive_vote store_term_and_vote with_context become_follower
receive_vote-lowers res s role denied old = ground arith
