-- ===== src/Raft/Vote/Twice.antt =====
-- Votes of floyd/src that a node gives away a second time.
use moxie_simple.Base.{ℕ, ◌≡◌, refl, List, true, none, arith, inl, inr}
use moxie_simple.Raft.{Entry, nobody, RequestVote}
use moxie_simple.Raft.Log.Contents.{Holds}
use moxie_simple.Raft.Node.{
  FloydImpl, become_follower, become_candidate, store_term_and_vote, with_context, recover_init,
  restart_node,
}
use moxie_simple.Raft.Vote.{grant_vote, grant, answer, reply_request_vote, start_election}
use moxie_simple.Raft.Vote.OneVote.{see_term_lem, reply_request_vote-cases}
use moxie_simple.Raft.Vote.Granting.{UpToDate, reply_request_vote-granted}

-- A node that has just become a candidate has voted for itself, but `vote_for_` does not say so:
-- another candidate of the same term, whose log goes as far, is granted a vote as well.
pub start_election-votes_twice :
    (now : ℕ) (r : RequestVote) (s : FloydImpl) (entries : List Entry)
    → Holds s.log entries
    → UpToDate r entries
    → r.term ≡ (start_election s).context.current_term
    → s.vote_for r.term ≡ none
    → ((start_election s).context.voted_for ≡ s.options.local)
      × ((reply_request_vote now r (start_election s)).0.vote_granted ≡ true)
unfolding start_election store_term_and_vote with_context become_candidate
start_election-votes_twice now r s entries h up same free = (
  refl,
  (reply_request_vote-granted now r (start_election s) entries h).1
      (omega (arith, same), up, λ a voted. absurd cc),
)

-- What a grant stores: not the vote, but nobody, since `GrantVote` comes after `SetVotedForIp`.
granted_lem :
    (now : ℕ) (r : RequestVote) (s : FloydImpl)
    → (reply_request_vote now r s).0.vote_granted ≡ true
    → let s' = (reply_request_vote now r s).1 in
      (s'.context.voted_for ≡ r.address)
      × (s'.meta.voted_for ≡ nobody)
      × (s'.meta.current_term ≡ r.term)
      × (s'.log ≡ s.log)
unfolding answer grant store_term_and_vote with_context become_follower grant_vote
granted_lem now r s granted = elim (reply_request_vote-cases now r s) [
  | inl (tests, e) ↦ rw e (refl, refl, refl, (see_term_lem r.term s).1)
  | inr (denied, same) ↦ absurd cc
]

-- A vote does not outlive the process: a node that has granted one and is opened again has stored
-- that it voted for nobody, and grants a vote of the same term to another candidate whose log goes
-- as far.
pub restart_node-votes_twice :
    (now now' : ℕ) (r r' : RequestVote) (s : FloydImpl) (entries : List Entry)
    → Holds s.log entries
    → (reply_request_vote now r s).0.vote_granted ≡ true
    → UpToDate r' entries
    → r'.term ≡ r.term
    → let s' = (reply_request_vote now r s).1 in
      (s'.context.voted_for ≡ r.address)
      × ((restart_node s').context.voted_for ≡ nobody)
      × ((reply_request_vote now' r' (restart_node s')).0.vote_granted ≡ true)
unfolding restart_node recover_init
restart_node-votes_twice now now' r r' s entries h granted up same =
    let s' = (reply_request_vote now r s).1 in
    let (given, stored, term, log) = granted_lem now r s granted in
    let h' : Holds (restart_node s').log entries = rw log h in
    (
      given,
      stored,
      (reply_request_vote-granted now' r' (restart_node s') entries h').1
          (omega (arith, same, term), up, λ a voted. absurd cc),
    )
