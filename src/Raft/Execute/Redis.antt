-- ===== src/Raft/Execute/Redis.antt =====
-- Redis commands that go through the log, in `ExecMcached` of floyd/src/floyd_impl.cc.
use moxie_simple.Base.{
  ℕ, suc, ◌+◌, ◌<◌, ◌≡◌, sym, ap, ◌∙◌, List, [], ◌∷◌, Bool, true, false, arith, ◌==◌, length,
  bytes_eq, bytes_eq_refl, eq→==, size_mod,
}
use moxie_simple.Raft.{Address, Entry, mcached_write}
use moxie_simple.Raft.Log.{append}
use moxie_simple.Raft.Log.Contents.{Holds, append-Holds}
use moxie_simple.Raft.Server.{Database, Library, Server}
use moxie_simple.Raft.Command.{
  CmdRequest, CmdResponse, k_mcached_write, k_ok, no_response, no_request, mcached_entry,
  build_log_entry, build_exec_mcached_request,
}
use moxie_simple.Raft.Execute.{
  Status, ok, is_ok, wait_applied, complete, execute_cmd, do_command, exec_mcached,
}
use moxie_simple.Raft.Execute.Steps.{execute_cmd-appended}
use moxie_simple.Store.{exec_args_error, Mcached, is_set_name, is_read_only, execute_command}
use moxie_simple.Store.Commands.{execute_command-unknown}

-- The request and the entry of a command.
abbrev pub mcached_request_of : List (List ℕ) → CmdRequest
mcached_request_of args = record no_request { type = k_mcached_write; mcached_request = args }

abbrev pub logged : List (List ℕ) → ℕ → Entry
logged args term = record {
  optype = mcached_write;
  term = term;
  key = [];
  value = [];
  holder = [];
  lease_end = 0;
  server = [];
  args = args;
}

-- The server when the entry is in its log.
abbrev pub with_entry : {D : Type 0} → List (List ℕ) → Server D → Server D
with_entry args s = record s {
  node = record s.node {
    log = (append true (logged args s.node.context.current_term ∷ []) s.node.log).1;
  };
}

module _ {D : Type 0} (rocks : Database D) (lib : Library) where
  pub execute_cmd-logs :
      (signals : List (Server D → Server D)) (args : List (List ℕ)) (s s₂ : Server D)
      (entries : List Entry)
      → Holds s.node.log entries
      → length entries + 1 < size_mod
      → s.node.options.single_mode ≡ false
      → wait_applied (suc (length entries)) signals (with_entry args s) ≡ (true, s₂)
      → execute_cmd rocks lib true signals (mcached_request_of args) no_response s
        ≡ (ok, record no_response { type = k_mcached_write; code = k_ok }, s₂)
  unfolding build_log_entry mcached_entry complete
  execute_cmd-logs signals args s s₂ entries h room cluster waited =
      let entry = logged args s.node.context.current_term in
      let (log, index) = append-Holds s.node.log entries (entry ∷ []) h room in
      execute_cmd-appended rocks lib true signals (mcached_request_of args) no_response s s₂
        (suc (length entries)) (append true (entry ∷ []) s.node.log).1
        (ap (λ n. (n, (append true (entry ∷ []) s.node.log).1)) (index ∙ one_more (length entries)))
        (omega arith) cluster waited
    where
      one_more : (n : ℕ) → n + 1 ≡ suc n
      one_more n = omega arith

  pub do_command_lem :
      (forward : Address → CmdRequest → Status × CmdResponse) (written : Bool)
      (signals : List (Server D → Server D)) (request : CmdRequest) (response : CmdResponse)
      (s : Server D)
      → s.node.context.leader_address ≡ s.node.options.local
      → do_command rocks lib forward written signals request response s
        ≡ execute_cmd rocks lib written signals request response s
  unfolding do_command
  do_command_lem forward written signals request response s lead =
      let ip : bytes_eq s.node.options.local.0 s.node.context.leader_address.0 ≡ true =
        ap (λ a. bytes_eq s.node.options.local.0 a.0) lead ∙ bytes_eq_refl s.node.options.local.0 in
      let port : (s.node.options.local.1 == s.node.context.leader_address.1) ≡ true =
        eq→== _ _ (ap (λ a. a.1) (sym lead)) in
      simp (do_command, ip, port)

  -- The cluster does not look at a command before it takes it for a write. On a leader, a command
  -- that is neither a write nor a read of the store is put into the log, and answered with OK and
  -- an empty string once it is applied, although applying it leaves every store as it is; a single
  -- node refuses it.
  pub exec_mcached-unchecked :
      (forward : Address → CmdRequest → Status × CmdResponse) (signals : List (Server D → Server D))
      (name : List ℕ) (args : List (List ℕ)) (res : List ℕ) (s s₂ : Server D) (entries : List Entry)
      → Holds s.node.log entries
      → length entries + 1 < size_mod
      → s.node.options.single_mode ≡ false
      → s.node.context.leader_address ≡ s.node.options.local
      → is_set_name name ≡ false
      → is_read_only name ≡ false
      → wait_applied (suc (length entries)) signals (with_entry (name ∷ args) s) ≡ (true, s₂)
      → (exec_mcached rocks lib forward true signals (name ∷ args) res s ≡ (ok, [], s₂))
        × ((cached : Mcached)
            → execute_command (name ∷ args) [] cached ≡ (exec_args_error, [], cached))
  unfolding exec_mcached build_exec_mcached_request is_ok
  exec_mcached-unchecked forward signals name args res s s₂ entries h room cluster lead no_set
        no_get waited =
      let run = execute_cmd-logs signals (name ∷ args) s s₂ entries h room cluster waited in
      let led : do_command rocks lib forward true signals (mcached_request_of (name ∷ args))
            no_response s
          ≡ (ok, record no_response { type = k_mcached_write; code = k_ok }, s₂) =
        do_command_lem forward true signals (mcached_request_of (name ∷ args)) no_response s lead
        ∙ run in
      (
        simp (exec_mcached, no_get, cluster, led),
        λ cached. execute_command-unknown name args [] cached no_set no_get,
      )
