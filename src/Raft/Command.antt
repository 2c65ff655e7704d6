-- ===== src/Raft/Command.antt =====
-- The requests and responses of floyd/src/proto/floyd.proto, and how floyd/src/floyd_impl.cc builds
-- them and the entries of the log. A field that is not set is empty or zero.
use moxie_simple.Base.{ℕ, ◌+◌, ◌*◌, List, [], ◌∷◌, Option, none, some, ◌%◌, ◌^◌, if◌then◌else◌}
use moxie_simple.Raft.{
  Entry, OpType, read, write, delete, try_lock, unlock, add_server, remove_server, get_all_servers,
  mcached_write, mcached_read, RequestVote, RequestVoteResponse, AppendEntries,
  AppendEntriesResponse,
}
use moxie_simple.Store.{is_read_only}

-- `Type`.
pub data CmdType : Type 0 where
  k_read k_write k_delete k_try_lock k_unlock k_add_server k_remove_server k_get_all_servers :
      CmdType
  k_mcached_write k_mcached_read k_request_vote k_append_entries k_server_status : CmdType

-- `StatusCode`.
pub data StatusCode : Type 0 where
  k_ok k_not_found k_error k_locked : StatusCode

pub record KvRequest : Type 0 where
  pub key : List ℕ
  pub value : List ℕ

pub record LockRequest : Type 0 where
  pub name : List ℕ
  pub holder : List ℕ
  pub lease_end : ℕ

-- `CmdRequest`. Of an added and a removed server there is the name.
pub record CmdRequest : Type 0 where
  pub type : CmdType
  pub request_vote : Option RequestVote
  pub append_entries : Option AppendEntries
  pub kv_request : KvRequest
  pub lock_request : LockRequest
  pub new_server : List ℕ
  pub old_server : List ℕ
  pub mcached_request : List (List ℕ)

-- `CmdResponse`, with the values of the answers.
pub record CmdResponse : Type 0 where
  pub type : CmdType
  pub code : StatusCode
  pub request_vote_res : Option RequestVoteResponse
  pub append_entries_res : Option AppendEntriesResponse
  pub kv_response : List ℕ
  pub all_servers : List (List ℕ)
  pub mcached_response : List ℕ

abbrev pub no_request : CmdRequest
no_request = record {
  type = k_read;
  request_vote = none;
  append_entries = none;
  kv_request = record { key = []; value = [] };
  lock_request = record { name = []; holder = []; lease_end = 0 };
  new_server = [];
  old_server = [];
  mcached_request = [];
}

abbrev pub no_response : CmdResponse
no_response = record {
  type = k_read;
  code = k_ok;
  request_vote_res = none;
  append_entries_res = none;
  kv_response = [];
  all_servers = [];
  mcached_response = [];
}

unfoldable pub build_read_request : List ℕ → CmdRequest
build_read_request key = record no_request { kv_request = record { key = key; value = [] } }

unfoldable pub build_read_response : List ℕ → StatusCode → CmdResponse → CmdResponse
build_read_response value k_ok res = record res { code = k_ok; kv_response = value }
build_read_response value k_not_found res = record res { code = k_not_found }
build_read_response value k_error res = record res { code = k_error }
build_read_response value k_locked res = record res { code = k_locked }

unfoldable pub build_write_request : List ℕ → List ℕ → CmdRequest
build_write_request key value = record no_request {
  type = k_write;
  kv_request = record { key = key; value = value };
}

unfoldable pub build_delete_request : List ℕ → CmdRequest
build_delete_request key = record no_request {
  type = k_delete;
  kv_request = record { key = key; value = [] };
}

-- The lease ends `ttl` milliseconds after the time of the call, in microseconds.
unfoldable pub build_try_lock_request : ℕ → List ℕ → List ℕ → ℕ → CmdRequest
build_try_lock_request now name holder ttl = record no_request {
  type = k_try_lock;
  lock_request = record { name = name; holder = holder; lease_end = (now + ttl * 1000) % 2 ^ 64 };
}

unfoldable pub build_unlock_request : List ℕ → List ℕ → CmdRequest
build_unlock_request name holder = record no_request {
  type = k_unlock;
  lock_request = record { name = name; holder = holder; lease_end = 0 };
}

unfoldable pub build_add_server_request : List ℕ → CmdRequest
build_add_server_request server = record no_request { type = k_add_server; new_server = server }

unfoldable pub build_remove_server_request : List ℕ → CmdRequest
build_remove_server_request server = record no_request {
  type = k_remove_server;
  old_server = server;
}

unfoldable pub build_get_all_servers_request : CmdRequest
build_get_all_servers_request = record no_request { type = k_get_all_servers }

-- `none` is a failed assertion.
unfoldable pub build_exec_mcached_request : List (List ℕ) → Option CmdRequest
build_exec_mcached_request [] = none
build_exec_mcached_request (name ∷ args) = some (record no_request {
  type = (if is_read_only name then k_mcached_read else k_mcached_write);
  mcached_request = name ∷ args;
})

unfoldable pub mcached_entry : OpType → CmdRequest → ℕ → Entry
mcached_entry optype cmd term = record {
  optype = optype;
  term = term;
  key = [];
  value = [];
  holder = [];
  lease_end = 0;
  server = [];
  args = cmd.mcached_request;
}

unfoldable pub kv_entry : OpType → CmdRequest → ℕ → Entry
kv_entry optype cmd term = record {
  optype = optype;
  term = term;
  key = cmd.kv_request.key;
  value = cmd.kv_request.value;
  holder = [];
  lease_end = 0;
  server = [];
  args = [];
}

-- `BuildLogEntry`. A request of another type leaves the operation at its default, which is a read.
unfoldable pub build_log_entry : CmdRequest → ℕ → Entry
unfolding mcached_entry kv_entry
build_log_entry cmd term = elim cmd.type [
  | k_mcached_read ↦ mcached_entry mcached_read cmd term
  | k_mcached_write ↦ mcached_entry mcached_write cmd term
  | k_read ↦ kv_entry read cmd term
  | k_write ↦ kv_entry write cmd term
  | k_delete ↦ kv_entry delete cmd term
  | k_try_lock ↦ record (kv_entry try_lock cmd term) {
    key = cmd.lock_request.name;
    holder = cmd.lock_request.holder;
    lease_end = cmd.lock_request.lease_end;
  }
  | k_unlock ↦ record (kv_entry unlock cmd term) {
    key = cmd.lock_request.name;
    holder = cmd.lock_request.holder;
  }
  | k_add_server ↦ record (kv_entry add_server cmd term) { server = cmd.new_server }
  | k_remove_server ↦ record (kv_entry remove_server cmd term) { server = cmd.old_server }
  | k_get_all_servers ↦ kv_entry get_all_servers cmd term
  | k_request_vote ↦ kv_entry read cmd term
  | k_append_entries ↦ kv_entry read cmd term
  | k_server_status ↦ kv_entry read cmd term
]
