-- ===== src/Raft/Client.antt =====
-- The calls of a client of floyd, in floyd/src/floyd_impl.cc, and the status of a server. `call`
-- stands for `DoCommand` of a server with its network.
use moxie_simple.Base.{ℕ, List, [], ◌∷◌, if◌then◌else◌}
use moxie_simple.Raft.Log.{get_last_log_term_and_index}
use moxie_simple.Raft.Node.{FloydImpl, Role}
use moxie_simple.Raft.Server.{done, missing, failed, Database, Server}
use moxie_simple.Raft.Command.{
  CmdRequest, CmdResponse, k_ok, k_not_found, k_error, k_locked, no_response, build_read_request,
  build_write_request, build_delete_request, build_try_lock_request, build_unlock_request,
  build_add_server_request, build_remove_server_request, build_get_all_servers_request,
}
use moxie_simple.Raft.Execute.{Status, ok, not_found, corruption, is_ok}

-- A status that is not OK is passed on; a response with another code is `Corruption`.
unfoldable pub check_code : Status → CmdResponse → Status
unfolding is_ok
check_code st response =
    if is_ok st
    then elim response.code [
      | k_ok ↦ ok
      | k_not_found ↦ corruption
      | k_error ↦ corruption
      | k_locked ↦ corruption
    ]
    else st

module _ {D : Type 0}
    (call : CmdRequest → CmdResponse → Server D → Status × CmdResponse × Server D) where
  unfoldable pub send_command : CmdRequest → Server D → Status × Server D
  unfolding check_code
  send_command cmd s =
      let (st, response, s') = call cmd no_response s in (check_code st response, s')

  unfoldable pub write_key : List ℕ → List ℕ → Server D → Status × Server D
  unfolding send_command build_write_request
  write_key key value s = send_command (build_write_request key value) s

  unfoldable pub delete_key : List ℕ → Server D → Status × Server D
  unfolding send_command build_delete_request
  delete_key key s = send_command (build_delete_request key) s

  -- `Read`: the value that was passed in stays if there is no other.
  unfoldable pub read_key : List ℕ → List ℕ → Server D → Status × List ℕ × Server D
  unfolding build_read_request is_ok
  read_key key value s =
      let (st, response, s') = call (build_read_request key) no_response s in
      if is_ok st
      then elim response.code as (λ x. Status × List ℕ × Server D) [
        | k_ok ↦ (ok, response.kv_response, s')
        | k_not_found ↦ (not_found, value, s')
        | k_error ↦ (corruption, value, s')
        | k_locked ↦ (corruption, value, s')
      ]
      else (st, value, s')

  unfoldable pub try_lock_name : ℕ → List ℕ → List ℕ → ℕ → Server D → Status × Server D
  unfolding send_command build_try_lock_request
  try_lock_name now name holder ttl s = send_command (build_try_lock_request now name holder ttl) s

  unfoldable pub unlock_name : List ℕ → List ℕ → Server D → Status × Server D
  unfolding send_command build_unlock_request
  unlock_name name holder s = send_command (build_unlock_request name holder) s

  unfoldable pub add_server_name : List ℕ → Server D → Status × Server D
  unfolding send_command build_add_server_request
  add_server_name server s = send_command (build_add_server_request server) s

  unfoldable pub remove_server_name : List ℕ → Server D → Status × Server D
  unfolding send_command build_remove_server_request
  remove_server_name server s = send_command (build_remove_server_request server) s

  -- `GetAllServers`: the names are inserted into a set.
  unfoldable pub all_server_names : List (List ℕ) → Server D → Status × List (List ℕ) × Server D
  unfolding build_get_all_servers_request is_ok
  all_server_names nodes s =
      let (st, response, s') = call build_get_all_servers_request no_response s in
      if is_ok st
      then elim response.code as (λ x. Status × List (List ℕ) × Server D) [
        | k_ok ↦ (ok, response.all_servers, s')
        | k_not_found ↦ (corruption, nodes, s')
        | k_error ↦ (corruption, nodes, s')
        | k_locked ↦ (corruption, nodes, s')
      ]
      else (st, nodes, s')

-- `DirtyRead`, past the log. What `Get` leaves in the string is the value.
unfoldable pub dirty_read : {D : Type 0} → Database D → List ℕ → Server D → Status × List ℕ
dirty_read rocks key s =
    let (st, value) = rocks.get key s.db in
    elim st as (λ x. Status × List ℕ) [
      | done ↦ (ok, value)
      | missing ↦ (not_found, value)
      | failed ↦ (corruption, value)
    ]

-- `CmdResponse.ServerStatus`.
pub record ServerStatus : Type 0 where
  pub role : Role
  pub term : ℕ
  pub commit_index : ℕ
  pub leader_ip : List ℕ
  pub leader_port : ℕ
  pub voted_for_ip : List ℕ
  pub voted_for_port : ℕ
  pub last_log_term : ℕ
  pub last_log_index : ℕ
  pub last_applied : ℕ

-- `"null"` for an empty ip.
unfoldable pub or_null : List ℕ → List ℕ
or_null [] = b'n' ∷ b'u' ∷ b'l' ∷ b'l' ∷ []
or_null (c ∷ cs) = c ∷ cs

-- `DoGetServerStatus`. The role stands for its name.
unfoldable pub do_get_server_status : FloydImpl → ServerStatus
unfolding or_null get_last_log_term_and_index
do_get_server_status s =
    let (last_log_term, last_log_index) = get_last_log_term_and_index s.log in
    record {
      role = s.context.role;
      term = s.context.current_term;
      commit_index = s.context.commit_index;
      leader_ip = or_null s.context.leader_address.0;
      leader_port = s.context.leader_address.1;
      voted_for_ip = or_null s.context.voted_for.0;
      voted_for_port = s.context.voted_for.1;
      last_log_term = last_log_term;
      last_log_index = last_log_index;
      last_applied = s.meta.last_applied;
    }
