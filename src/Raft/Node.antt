-- ===== src/Raft/Node.antt =====
-- floyd/src/floyd_context.cc, raft_meta.cc and the fields of floyd_impl.h: the state of a node.
-- What `RaftMeta` has stored survives a restart, as the log does; the rest does not.
use moxie_simple.Base.{ℕ, Bool, Option, none, size_add}
use moxie_simple.Raft.{Address, nobody}
use moxie_simple.Raft.Log.{RaftLog}

-- `Role`.
pub data Role : Type 0 where
  follower candidate leader : Role

-- The part of `Options` that the protocol reads. `members` is their number.
pub record Options : Type 0 where
  pub local : Address
  pub members : ℕ
  pub single_mode : Bool
  pub heartbeat_us : ℕ
  pub check_leader_us : ℕ
  pub append_entries_count_once : ℕ

-- `FloydContext`, in which an ip and its port are one field.
pub record FloydContext : Type 0 where
  pub current_term : ℕ
  pub role : Role
  pub voted_for : Address
  pub leader_address : Address
  pub vote_quorum : ℕ
  pub commit_index : ℕ
  pub last_applied : ℕ
  pub last_op_time : ℕ

-- The values that `RaftMeta` keeps in the database.
pub record RaftMeta : Type 0 where
  pub current_term : ℕ
  pub voted_for : Address
  pub commit_index : ℕ
  pub last_applied : ℕ

-- `class FloydImpl`. `applies` counts the calls of `ScheduleApply`.
pub record FloydImpl : Type 0 where
  pub options : Options
  pub context : FloydContext
  pub meta : RaftMeta
  pub log : RaftLog
  pub vote_for : ℕ → Option Address
  pub applies : ℕ

unfoldable pub become_follower : ℕ → Address → FloydContext → FloydContext
become_follower new_term address c = record c {
  voted_for = address;
  current_term = new_term;
  leader_address = address;
  role = follower;
}

unfoldable pub become_candidate : Options → FloydContext → FloydContext
become_candidate o c = record c {
  current_term = size_add c.current_term 1;
  role = candidate;
  leader_address = nobody;
  voted_for = o.local;
  vote_quorum = 1;
}

unfoldable pub become_leader : Options → FloydContext → FloydContext
become_leader o c = record c { role = leader; leader_address = o.local }

-- `SetCurrentTerm`, alone and with `SetVotedForIp` and `SetVotedForPort`, from the context.
unfoldable pub store_term : FloydImpl → FloydImpl
store_term s = record s { meta = record s.meta { current_term = s.context.current_term } }

unfoldable pub store_term_and_vote : FloydImpl → FloydImpl
store_term_and_vote s = record s {
  meta = record s.meta { current_term = s.context.current_term; voted_for = s.context.voted_for };
}

-- `SetCommitIndex(context_->commit_index)`.
unfoldable pub store_commit : FloydImpl → FloydImpl
store_commit s = record s { meta = record s.meta { commit_index = s.context.commit_index } }

unfoldable pub with_context : (FloydContext → FloydContext) → FloydImpl → FloydImpl
with_context f s = record s { context = f s.context }

-- The constructor of `FloydContext` and `RecoverInit`.
unfoldable pub recover_init : RaftMeta → FloydContext
recover_init m = record {
  current_term = m.current_term;
  role = follower;
  voted_for = m.voted_for;
  leader_address = nobody;
  vote_quorum = 0;
  commit_index = m.commit_index;
  last_applied = m.last_applied;
  last_op_time = 0;
}

-- A node that stops and is opened again.
unfoldable pub restart_node : FloydImpl → FloydImpl
unfolding recover_init
restart_node s = record s { context = recover_init s.meta; vote_for = λ term. none; applies = 0 }
