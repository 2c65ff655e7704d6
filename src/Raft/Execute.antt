-- ===== src/Raft/Execute.antt =====
-- Commands of floyd/src/floyd_impl.cc: `DoCommand`, `ExecuteCommand` and `ExecMcached`. What the
-- other threads make of the server while a command waits is an argument, as is the network.
pub mod Steps
pub mod Redis
pub mod Unlogged
pub mod ReadBack
use moxie_simple.Base.{
  ℕ, suc, List, [], ◌∷◌, Bool, true, false, not, ◌&&◌, ◌||◌, Option, none, some, ltb, leb, ◌==◌,
  if◌then◌else◌, bytes_eq,
}
use moxie_simple.Raft.{Address}
use moxie_simple.Raft.Log.{append}
use moxie_simple.Raft.Node.{FloydImpl, store_commit, with_context}
use moxie_simple.Raft.Server.{
  DbStatus, done, missing, failed, Database, Library, member_config_key, Server,
}
use moxie_simple.Raft.Command.{
  CmdRequest, CmdResponse, CmdType, k_read, k_write, k_delete, k_try_lock, k_unlock, k_add_server,
  k_remove_server, k_get_all_servers, k_mcached_write, k_mcached_read, k_request_vote,
  k_append_entries, k_server_status, k_ok, k_not_found, k_error, k_locked, no_response,
  build_log_entry, build_read_response, build_exec_mcached_request,
}
use moxie_simple.Store.{
  Code, exec_ok, unknow_error, not_found_key, exec_args_error, exec_unknow_cmd, execute_command,
  is_read_only,
}

-- `slash::Status`, without the text.
pub data Status : Type 0 where
  ok not_found corruption io_error incomplete timeout : Status

unfoldable pub is_ok : Status → Bool
is_ok ok = true
is_ok not_found = false
is_ok corruption = false
is_ok io_error = false
is_ok incomplete = false
is_ok timeout = false

unfoldable pub is_exec_ok : Code → Bool
is_exec_ok exec_ok = true
is_exec_ok unknow_error = false
is_exec_ok not_found_key = false
is_exec_ok exec_args_error = false
is_exec_ok exec_unknow_cmd = false

-- The waiting of `ExecuteCommand`: each element is what others do up to a signal; at the end of the
-- list the wait times out. The Boolean tells whether the index was applied.
unfoldable pub wait_applied :
    {D : Type 0} → ℕ → List (Server D → Server D) → Server D → Bool × Server D
wait_applied index [] s = (not (ltb s.node.context.last_applied index), s)
wait_applied index (others ∷ signals) s =
    let rest = wait_applied index signals (others s) in
    if ltb s.node.context.last_applied index then rest else (true, s)

-- The entry is in the log: it is committed at once by a single node, and by the peers else.
unfoldable pub launch_command : {D : Type 0} → ℕ → Server D → Server D
unfolding store_commit with_context
launch_command last_log_index s =
    if s.node.options.single_mode
    then (let node =
          store_commit (with_context (λ c. record c { commit_index = last_log_index }) s.node) in
        record s { node = record node { applies = suc node.applies } })
    else s

module _ {D : Type 0} (rocks : Database D) (lib : Library) where
  -- The end of `ExecuteCommand`, after the entry was applied.
  unfoldable pub complete : CmdRequest → CmdResponse → Server D → Status × CmdResponse × Server D
  unfolding is_exec_ok build_read_response
  complete request res s =
      let good = record res { code = k_ok } in
      elim request.type as (λ x. Status × CmdResponse × Server D) [
        | k_mcached_read ↦
            let (code, value, cached) = execute_command request.mcached_request [] s.cached in
            let s' : Server D = record s { cached = cached } in
            if is_exec_ok code
            then (ok, record good { mcached_response = value }, s')
            else (ok, record res { code = k_error }, s')
        | k_mcached_write ↦ (ok, good, s)
        | k_write ↦ (ok, good, s)
        | k_delete ↦ (ok, good, s)
        | k_read ↦
            let (rs, value) = rocks.get request.kv_request.key s.db in
            elim rs as (λ x. Status × CmdResponse × Server D) [
              | done ↦ (ok, build_read_response value k_ok res, s)
              | missing ↦ (ok, build_read_response value k_not_found res, s)
              | failed ↦ (corruption, build_read_response value k_error res, s)
            ]
        | k_try_lock ↦
            let (rs, value) = rocks.get request.lock_request.name s.db in
            let lock = lib.parse_lock value in
            elim rs as (λ x. Status × CmdResponse × Server D) [
              | done ↦
                  if bytes_eq lock.holder request.lock_request.holder
                    && lock.lease_end == request.lock_request.lease_end
                  then (ok, good, s)
                  else (ok, res, s)
              | missing ↦ (ok, record res { code = k_locked }, s)
              | failed ↦ (ok, record res { code = k_locked }, s)
            ]
        | k_unlock ↦
            let (rs, value) = rocks.get request.lock_request.name s.db in
            elim rs as (λ x. Status × CmdResponse × Server D) [
              | missing ↦ (ok, good, s)
              | done ↦ (ok, record res { code = k_locked }, s)
              | failed ↦ (ok, record res { code = k_locked }, s)
            ]
        | k_add_server ↦ (ok, good, s)
        | k_remove_server ↦ (ok, good, s)
        | k_get_all_servers ↦
            let (rs, value) = rocks.get member_config_key s.db in
            elim rs as (λ x. Status × CmdResponse × Server D) [
              | missing ↦ (corruption, res, s)
              | failed ↦ (corruption, res, s)
              | done ↦ elim (lib.parse_members value) as (λ x. Status × CmdResponse × Server D) [
                | none ↦ (corruption, res, s)
                | some nodes ↦ (ok, record good { all_servers = nodes }, s)
              ]
            ]
        | k_request_vote ↦ (corruption, res, s)
        | k_append_entries ↦ (corruption, res, s)
        | k_server_status ↦ (corruption, res, s)
      ]

  -- `ExecuteCommand`. `written` says whether the log can be written.
  unfoldable pub execute_cmd :
      Bool
      → List (Server D → Server D)
      → CmdRequest
      → CmdResponse
      → Server D
      → Status × CmdResponse × Server D
  unfolding build_log_entry append launch_command wait_applied complete
  execute_cmd written signals request response s =
      let entry = build_log_entry request s.node.context.current_term in
      let res = record response { type = request.type; code = k_error } in
      let (last_log_index, log) = append written (entry ∷ []) s.node.log in
      let s₁ : Server D = record s { node = record s.node { log = log } } in
      if leb last_log_index 0
      then (io_error, res, s₁)
      else (let (applied, s₂) =
            wait_applied last_log_index signals (launch_command last_log_index s₁) in
          if applied then complete request res s₂ else (timeout, res, s₂))

  -- `DoCommand`. `forward` sends a request to a leader elsewhere.
  unfoldable pub do_command :
      (Address → CmdRequest → Status × CmdResponse)
      → Bool
      → List (Server D → Server D)
      → CmdRequest
      → CmdResponse
      → Server D
      → Status × CmdResponse × Server D
  unfolding execute_cmd
  do_command forward written signals request response s =
      let (leader_ip, leader_port) = s.node.context.leader_address in
      let (local_ip, local_port) = s.node.options.local in
      if bytes_eq local_ip leader_ip && local_port == leader_port
      then execute_cmd written signals request response s
      else (if bytes_eq leader_ip [] || leader_port == 0
          then (incomplete, response, s)
          else (let (st, res) = forward (leader_ip, leader_port) request in (st, res, s)))

  -- `ExecMcached`: the status, and the string of the response.
  unfoldable pub exec_mcached :
      (Address → CmdRequest → Status × CmdResponse)
      → Bool
      → List (Server D → Server D)
      → List (List ℕ)
      → List ℕ
      → Server D
      → Status × List ℕ × Server D
  unfolding build_exec_mcached_request is_exec_ok is_ok
  exec_mcached forward written signals [] res s = (corruption, res, s)
  exec_mcached forward written signals (name ∷ args) res s =
      if is_read_only name || s.node.options.single_mode
      then (let (code, res', cached) = execute_command (name ∷ args) res s.cached in
          (if is_exec_ok code then ok else corruption, res', record s { cached = cached }))
      else elim (build_exec_mcached_request (name ∷ args)) as (λ x. Status × List ℕ × Server D) [
        | none ↦ (corruption, res, s)
        | some cmd ↦
            let (st, response, s') = do_command forward written signals cmd no_response s in
            if is_ok st
            then (elim response.code as (λ x. Status × List ℕ × Server D) [
              | k_ok ↦ (ok, response.mcached_response, s')
              | k_not_found ↦ (corruption, response.mcached_response, s')
              | k_error ↦ (corruption, response.mcached_response, s')
              | k_locked ↦ (corruption, response.mcached_response, s')
            ])
            else (st, res, s')
      ]
