-- ===== src/Raft.antt =====
-- example/Mcached/mraft/floyd: the Raft cluster that replicates the store. Here are the messages
-- and the entries of proto/floyd.proto. Terms and indices are `uint64_t`; an address is an ip and a
-- port.
pub mod Log
pub mod Node
pub mod Vote
pub mod Append
pub mod Peer
pub mod Events
pub mod Server
pub mod Primary
pub mod Apply
pub mod Command
pub mod Execute
pub mod Client
pub mod Worker
pub mod Start
pub mod Stored
pub mod Options
use moxie_simple.Base.{ℕ, List, [], Bool, ◌&&◌, ◌==◌, bytes_eq}

-- `Entry.OpType`.
pub data OpType : Type 0 where
  read write delete try_lock unlock add_server remove_server get_all_servers : OpType
  mcached_write mcached_read : OpType

-- `Entry`. A field that is not set is empty or zero.
pub record Entry : Type 0 where
  pub optype : OpType
  pub term : ℕ
  pub key : List ℕ
  pub value : List ℕ
  pub holder : List ℕ
  pub lease_end : ℕ
  pub server : List ℕ
  pub args : List (List ℕ)

abbrev pub Address : Type 0
Address = List ℕ × ℕ

abbrev pub nobody : Address
nobody = ([], 0)

unfoldable pub same_address : Address → Address → Bool
same_address (ip, port) (ip', port') = bytes_eq ip ip' && port == port'

-- `CmdRequest.RequestVote` and its response.
pub record RequestVote : Type 0 where
  pub term : ℕ
  pub address : Address
  pub last_log_index : ℕ
  pub last_log_term : ℕ

pub record RequestVoteResponse : Type 0 where
  pub term : ℕ
  pub vote_granted : Bool

-- `CmdRequest.AppendEntries` and its response.
pub record AppendEntries : Type 0 where
  pub term : ℕ
  pub address : Address
  pub prev_log_index : ℕ
  pub prev_log_term : ℕ
  pub leader_commit : ℕ
  pub entries : List Entry

pub record AppendEntriesResponse : Type 0 where
  pub term : ℕ
  pub success : Bool
  pub last_log_index : ℕ
