-- ===== src/Tests/RaftTests.antt =====
-- Nodes of the Raft cluster in floyd/src, at concrete states.
use moxie_simple.Base.{
  ◌≤◌, ◌≡◌, ◌↔◌, inr, refl, List, [], ◌∷◌, true, false, none, some, arith, size_add, bytes_eq,
}
use moxie_simple.Raft.{
  Entry, write, Address, nobody, same_address, RequestVote, RequestVoteResponse, AppendEntries,
  AppendEntriesResponse,
}
use moxie_simple.Raft.Log.{RaftLog, put_all}
use moxie_simple.Raft.Log.Contents.{Holds, put_all-Holds}
use moxie_simple.Raft.Node.{FloydImpl, follower, candidate, leader, restart_node}
use moxie_simple.Raft.Vote.{
  see_term, is_behind, has_voted, grant, answer, reply_request_vote, start_election,
}
use moxie_simple.Raft.Vote.Granting.{UpToDate, IsFree, reply_request_vote-granted}
use moxie_simple.Raft.Vote.Twice.{start_election-votes_twice, restart_node-votes_twice}
use moxie_simple.Raft.Append.{reply_append_entries}
use moxie_simple.Raft.Append.Lost.{append_fails, reply_append_entries-lost}
use moxie_simple.Raft.Peer.{Peer, accepted, quorum_match_index, receive_append}

abbrev pub local : Address
local = (49 ∷ [], 8901)

abbrev pub other : Address
other = (50 ∷ [], 8901)

abbrev pub third : Address
third = (51 ∷ [], 8901)

-- A write of the term 1.
abbrev entry : Entry
entry = record {
  optype = write;
  term = 1;
  key = 107 ∷ [];
  value = 118 ∷ [];
  holder = [];
  lease_end = 0;
  server = [];
  args = [];
}

abbrev entries : List Entry
entries = entry ∷ entry ∷ []

abbrev pub empty : RaftLog
empty = record { db = λ i. none; last_log_index = 0 }

pub empty-Holds : Holds empty []
empty-Holds = record {
  last = refl;
  fits = omega arith;
  entry_at = λ i h. absurd (omega (arith, h));
}

abbrev log : RaftLog
log = put_all entries empty

log-Holds : Holds log entries
log-Holds = put_all-Holds entries empty [] empty-Holds (omega arith)

-- A follower in the term 1, which knows of a cluster of three.
abbrev pub node : FloydImpl
node = record {
  options = record {
    local = local;
    members = 3;
    single_mode = false;
    heartbeat_us = 3000000;
    check_leader_us = 6000000;
    append_entries_count_once = 100;
  };
  context = record {
    current_term = 1;
    role = follower;
    voted_for = nobody;
    leader_address = nobody;
    vote_quorum = 0;
    commit_index = 1;
    last_applied = 1;
    last_op_time = 0;
  };
  meta = record { current_term = 1; voted_for = nobody; commit_index = 1; last_applied = 1 };
  log = log;
  vote_for = λ term. none;
  applies = 0;
}

abbrev pub asks : Address → RequestVote
asks address = record { term = 2; address = address; last_log_index = 2; last_log_term = 1 }

up_to_date : UpToDate (asks other) entries
up_to_date = inr (refl, omega arith)

abbrev brings : AppendEntries
brings = record {
  term = 2;
  address = other;
  prev_log_index = 2;
  prev_log_term = 1;
  leader_commit = 2;
  entries = entry ∷ [];
}

reply_request_vote-granted_example :
    ((reply_request_vote 9 (asks other) node).0.vote_granted ≡ true)
    ↔ ((1 ≤ 2) × UpToDate (asks other) entries × IsFree (asks other) node)
reply_request_vote-granted_example =
    reply_request_vote-granted 9 (asks other) node entries log-Holds

pub is_granted : (reply_request_vote 9 (asks other) node).0.vote_granted ≡ true
is_granted = reply_request_vote-granted_example.1 (omega arith, up_to_date, λ a voted. absurd cc)

start_election-votes_twice_example :
    ((start_election node).context.voted_for ≡ local)
    × ((reply_request_vote 9 (asks other) (start_election node)).0.vote_granted ≡ true)
unfolding start_election size_add
start_election-votes_twice_example =
    start_election-votes_twice 9 (asks other) node entries log-Holds up_to_date refl refl

restart_node-votes_twice_example :
    let s = (reply_request_vote 9 (asks other) node).1 in
    (s.context.voted_for ≡ other)
    × ((restart_node s).context.voted_for ≡ nobody)
    × ((reply_request_vote 9 (asks third) (restart_node s)).0.vote_granted ≡ true)
restart_node-votes_twice_example =
    restart_node-votes_twice 9 9 (asks other) (asks third) node entries log-Holds is_granted
      (inr (refl, omega arith)) refl

-- Between the votes another candidate asks in vain.
abbrev pub voted : FloydImpl
voted = (reply_request_vote 9 (asks other) node).1

abbrev pub later : FloydImpl
later = (reply_request_vote 10 (asks third) voted).1

pub is_granted_again : (reply_request_vote 11 (asks other) later).0.vote_granted ≡ true
unfolding reply_request_vote put_all size_add see_term is_behind has_voted answer grant same_address
    bytes_eq
is_granted_again = refl

reply_append_entries-lost_example :
    (response : AppendEntriesResponse) × (s' : FloydImpl) × (reply_append_entries append_fails 7
        brings node
      ≡ some (response, s'))
    × (response.success ≡ true)
    × (s'.log ≡ node.log)
reply_append_entries-lost_example =
    reply_append_entries-lost 7 brings node entries log-Holds (omega arith) (omega arith)
      (omega arith) refl refl

-- The node leads the term 1 in a cluster of five, and two of its peers lack the second entry.
abbrev leading : FloydImpl
leading = record node {
  options = record node.options { members = 5 };
  context = record node.context { role = leader; leader_address = local };
}

abbrev peer : Peer
peer = record { next_index = 2; match_index = 1; peer_last_op_time = 0 }

abbrev sent : AppendEntries
sent = record {
  term = 1;
  address = local;
  prev_log_index = 1;
  prev_log_term = 1;
  leader_commit = 1;
  entries = entry ∷ [];
}

abbrev taken : AppendEntriesResponse
taken = record { term = 1; success = true; last_log_index = 2 }

abbrev caught_up : Peer
caught_up = record peer { next_index = 3; match_index = 2 }

abbrev committed_two : FloydImpl
committed_two = record leading {
  context = record leading.context { commit_index = 2 };
  meta = record leading.meta { commit_index = 2 };
  applies = 1;
}

answered :
    receive_append sent taken (2 ∷ 1 ∷ 2 ∷ []) leading peer ≡ some (false, caught_up, committed_two)
unfolding receive_append size_add accepted quorum_match_index
answered = refl

-- A candidate of the term 1 that has its own vote.
abbrev asking : FloydImpl
asking = record node { context = record node.context { role = candidate; vote_quorum = 1 } }

abbrev says_yes : RequestVoteResponse
says_yes = record { term = 1; vote_granted = true }
