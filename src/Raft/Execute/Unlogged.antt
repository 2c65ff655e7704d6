-- ===== src/Raft/Execute/Unlogged.antt =====
-- Commands of floyd/src/floyd_impl.cc whose entry could not be written to the log.
use moxie_simple.Base.{
  ◌+◌, ◌<◌, ◌≤◌, ◌≡◌, ◌⊎◌, inl, inr, ◌∙◌, List, [], ◌∷◌, false, ltb, ge→ltb, length, size_mod,
}
use moxie_simple.Raft.{Entry}
use moxie_simple.Raft.Log.Contents.{Holds, append-fails}
use moxie_simple.Raft.Server.{Database, Library, Server}
use moxie_simple.Raft.Command.{
  CmdRequest, CmdResponse, k_mcached_write, k_write, k_delete, k_ok, k_error, build_log_entry,
}
use moxie_simple.Raft.Execute.{ok, complete, execute_cmd}
use moxie_simple.Raft.Execute.Steps.{wait_applied-there, execute_cmd-appended}

-- The request changes the database or the store.
abbrev pub IsWrite : CmdRequest → Type 0
IsWrite request =
    (request.type ≡ k_mcached_write) ⊎ (request.type ≡ k_write) ⊎ (request.type ≡ k_delete)

module _ {D : Type 0} (rocks : Database D) (lib : Library) where
  complete-IsWrite :
      (request : CmdRequest) (res : CmdResponse) (s : Server D)
      → IsWrite request
      → complete rocks lib request res s ≡ (ok, record res { code = k_ok }, s)
  unfolding complete
  complete-IsWrite request res s (inl h) = simp (complete, h)
  complete-IsWrite request res s (inr (inl h)) = simp (complete, h)
  complete-IsWrite request res s (inr (inr h)) = simp (complete, h)

  -- A leader whose log is not empty and applied to its end, and that cannot write the log, answers
  -- to a write that it is done, and at once, while the server stays as it was: `Append` returns the
  -- old last index, and only 0 is taken for a failure.
  pub execute_cmd-loses :
      (signals : List (Server D → Server D)) (request : CmdRequest) (response : CmdResponse)
      (s : Server D) (entries : List Entry)
      → Holds s.node.log entries
      → length entries + 1 < size_mod
      → 0 < length entries
      → length entries ≤ s.node.context.last_applied
      → s.node.options.single_mode ≡ false
      → IsWrite request
      → execute_cmd rocks lib false signals request response s
        ≡ (ok, record response { type = request.type; code = k_ok }, s)
  execute_cmd-loses signals request response s entries h room some_entries applied cluster write =
      let entry = build_log_entry request s.node.context.current_term in
      let there : ltb s.node.context.last_applied (length entries) ≡ false =
        ge→ltb s.node.context.last_applied (length entries) applied in
      execute_cmd-appended rocks lib false signals request response s s (length entries) s.node.log
        (append-fails s.node.log entries (entry ∷ []) h room) some_entries cluster
        (wait_applied-there signals (length entries) s there)
      ∙ complete-IsWrite request (record response { type = request.type; code = k_error }) s write
