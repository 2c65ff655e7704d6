-- ===== src/Raft/Vote.antt =====
-- Elections: `ReplyRequestVote` of floyd/src/floyd_impl.cc, and what a candidate makes of the reply
-- in `RequestVoteRPC` of floyd/src/floyd_peer_thread.cc.
pub mod OneVote
pub mod Granting
pub mod Twice
pub mod Counting
use moxie_simple.Base.{
  ℕ, suc, ◌+◌, ◌/◌, ◌%◌, ◌^◌, List, [], Bool, true, false, not, ◌&&◌, ◌||◌, Option, none, some, ltb,
  ◌==◌, if◌then◌else◌, update,
}
use moxie_simple.Raft.{Address, nobody, same_address, RequestVote, RequestVoteResponse}
use moxie_simple.Raft.Log.{get_last_log_term_and_index}
use moxie_simple.Raft.Node.{
  FloydImpl, FloydContext, Options, Role, follower, candidate, leader, become_follower,
  become_candidate, become_leader, store_term, store_term_and_vote, with_context,
}

-- A larger term makes a follower with no leader.
unfoldable pub see_term : ℕ → FloydImpl → FloydImpl
unfolding store_term with_context become_follower
see_term term s =
    if ltb s.context.current_term term
    then store_term (with_context (become_follower term nobody) s)
    else s

-- The log of the candidate ends before mine.
unfoldable pub is_behind : RequestVote → FloydImpl → Bool
unfolding get_last_log_term_and_index
is_behind r s =
    let (my_last_log_term, my_last_log_index) = get_last_log_term_and_index s.log in
    ltb r.last_log_term my_last_log_term
    || (r.last_log_term == my_last_log_term && ltb r.last_log_index my_last_log_index)

-- I have voted for somebody else in that term.
unfoldable pub has_voted : RequestVote → FloydImpl → Bool
has_voted r s = elim (s.vote_for r.term) [
  | none ↦ false
  | some address ↦ not (same_address address r.address)
]

unfoldable pub grant_vote : ℕ → Address → FloydContext → FloydContext
grant_vote term address c = record c { voted_for = address; current_term = term }

-- The part of `ReplyRequestVote` that grants. What is stored is the vote of before `GrantVote`.
unfoldable pub grant : ℕ → RequestVote → FloydImpl → FloydImpl
unfolding with_context store_term_and_vote become_follower grant_vote update
grant now r s =
    let s₁ : FloydImpl = record s { vote_for = update s.vote_for r.term (some r.address) } in
    let s₂ = store_term_and_vote (with_context (become_follower r.term nobody) s₁) in
    with_context (λ c. record (grant_vote r.term r.address c) { last_op_time = now }) s₂

unfoldable pub answer : Bool → FloydImpl → RequestVoteResponse × FloydImpl
answer granted s = (record { term = s.context.current_term; vote_granted = granted }, s)

unfoldable pub reply_request_vote : ℕ → RequestVote → FloydImpl → RequestVoteResponse × FloydImpl
reply_request_vote now r s =
    let s = see_term r.term s in
    if ltb r.term s.context.current_term
    then answer false s
    else (if is_behind r s
        then answer false s
        else (if has_voted r s then answer false s else answer true (grant now r s)))

-- What `RequestVoteRPC` sends.
unfoldable pub request_vote : FloydImpl → RequestVote
unfolding get_last_log_term_and_index
request_vote s =
    let (last_log_term, last_log_index) = get_last_log_term_and_index s.log in
    record {
      term = s.context.current_term;
      address = s.options.local;
      last_log_index = last_log_index;
      last_log_term = last_log_term;
    }

-- `CheckAndVote`: the vote is counted, in 32 bits, if it is for the current term.
unfoldable pub check_and_vote : ℕ → FloydImpl → Bool × FloydImpl
unfolding with_context
check_and_vote vote_term s =
    if not (s.context.current_term == vote_term)
    then (false, s)
    else (let s' = with_context (λ c. record c { vote_quorum = (c.vote_quorum + 1) % 2 ^ 32 }) s in
        (ltb (s.options.members / 2) s'.context.vote_quorum, s'))

-- The answer of a peer, as `RequestVoteRPC` takes it. The Boolean tells whether the node has just
-- become a leader, which resets the indices of the peers and adds a heartbeat.
unfoldable pub receive_vote : RequestVoteResponse → FloydImpl → Bool × FloydImpl
unfolding store_term_and_vote with_context become_follower become_leader check_and_vote
receive_vote res s =
    let step_down = store_term_and_vote (with_context (become_follower res.term nobody) s) in
    if ltb s.context.current_term res.term then (false, step_down) else elim s.context.role [
      | candidate ↦
          if res.vote_granted
          then (let (elected, s') = check_and_vote res.term s in
              if elected then (true, with_context (become_leader s'.options) s') else (false, s'))
          else (false, step_down)
      | follower ↦ (false, s)
      | leader ↦ (false, s)
    ]

-- The part of `LaunchCheckLeader` that starts an election; the rest of it stands in Peer.
unfoldable pub start_election : FloydImpl → FloydImpl
unfolding store_term_and_vote with_context become_candidate
start_election s = store_term_and_vote (with_context (become_candidate s.options) s)
