-- ===== src/Raft/Execute/Steps.antt =====
-- The steps of `ExecuteCommand` in floyd/src/floyd_impl.cc, for a node of a cluster.
use moxie_simple.Base.{ℕ, ◌<◌, ◌≡◌, refl, List, [], ◌∷◌, Bool, true, false, arith, leb, ltb}
use moxie_simple.Raft.Log.{RaftLog, append}
use moxie_simple.Raft.Server.{Database, Library, Server}
use moxie_simple.Raft.Command.{CmdRequest, CmdResponse, k_error, build_log_entry}
use moxie_simple.Raft.Execute.{wait_applied, complete, launch_command, execute_cmd}

launch_command_lem :
    {D : Type 0} (index : ℕ) (s : Server D)
    → s.node.options.single_mode ≡ false
    → launch_command index s ≡ s
unfolding launch_command
launch_command_lem index s cluster = simp (launch_command, cluster)

pub wait_applied-there :
    {D : Type 0} (signals : List (Server D → Server D)) (index : ℕ) (s : Server D)
    → ltb s.node.context.last_applied index ≡ false
    → wait_applied index signals s ≡ (true, s)
unfolding wait_applied
wait_applied-there [] index s h = rw h refl
wait_applied-there (others ∷ signals) index s h = rw (wait_applied, h) refl

module _ {D : Type 0} (rocks : Database D) (lib : Library) where
  -- The entry was appended, and the wait was not in vain.
  pub execute_cmd-appended :
      (written : Bool) (signals : List (Server D → Server D)) (request : CmdRequest)
      (response : CmdResponse) (s s₂ : Server D) (index : ℕ) (log : RaftLog)
      → append written (build_log_entry request s.node.context.current_term ∷ []) s.node.log
        ≡ (index, log)
      → 0 < index
      → s.node.options.single_mode ≡ false
      → wait_applied index signals (record s { node = record s.node { log = log } }) ≡ (true, s₂)
      → execute_cmd rocks lib written signals request response s
        ≡ complete rocks lib request (record response { type = request.type; code = k_error }) s₂
  unfolding execute_cmd
  execute_cmd-appended written signals request response s s₂ index log e some_index cluster waited =
      let s₁ : Server D = record s { node = record s.node { log = log } } in
      let no_failure : leb index 0 ≡ false = ground arith in
      rw (execute_cmd, e, no_failure, launch_command_lem index s₁ cluster, waited) refl
