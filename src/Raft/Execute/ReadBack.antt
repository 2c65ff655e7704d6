-- ===== src/Raft/Execute/ReadBack.antt =====
-- A Redis command from its request to the store: `ExecMcached` of floyd/src/floyd_impl.cc, the
-- log, floyd_apply.cc and third/mcached together.
use moxie_simple.Base.{
  ℕ, suc, ◌+◌, ◌-◌, ◌<◌, ◌≡◌, refl, sym, ap, ◌∙◌, subst, List, [], ◌∷◌, ◌++◌, Bool, true, false,
  Option, none, some, arith, length, length-append, drop, take, drop-append_length, lt→ltb, ge→ltb,
  size_mod, inl, inr, Option-cases,
}
use moxie_simple.Raft.{Address, Entry}
use moxie_simple.Raft.Log.Contents.{Holds, append-Holds}
use moxie_simple.Raft.Node.{store_commit, with_context}
use moxie_simple.Raft.Server.{Database, Library, Server}
use moxie_simple.Raft.Command.{CmdRequest, CmdResponse, no_response, build_exec_mcached_request}
use moxie_simple.Raft.Apply.{apply_state_machine}
use moxie_simple.Raft.Apply.Redis.{
  write_entry, write_entries, committed, AllRedis, apply_state_machine-IsRedis,
}
use moxie_simple.Raft.Execute.{
  Status, ok, corruption, is_ok, is_exec_ok, wait_applied, exec_mcached,
}
use moxie_simple.Raft.Execute.Steps.{wait_applied-there}
use moxie_simple.Raft.Execute.Redis.{
  logged, with_entry, mcached_request_of, execute_cmd-logs, do_command_lem,
}
use moxie_simple.Store.{Mcached, lookup, is_set_name, is_read_only, execute_command}
use moxie_simple.Store.Commands.{
  IsValid, bind, abstract_execute, execute_command-refines, execute_command-reads,
}

one_left :
    (n : ℕ) (entries : List Entry) (e : Entry)
    → n ≡ length entries
    → take (suc (length entries) - n) (drop n (entries ++ e ∷ [])) ≡ e ∷ []
one_left n entries e all =
    ap (λ m. take (suc (length entries) - m) (drop m (entries ++ e ∷ []))) all
    ∙ rw (drop-append_length entries (e ∷ []), last (length entries)) refl
  where
    last : (m : ℕ) → suc m - m ≡ 1
    last m = omega arith

-- What a read of a key answers, when the key has this binding.
abbrev pub read_result : {S : Type 0} → Option (List ℕ) → S → Status × List ℕ × S
read_result none s = (corruption, [], s)
read_result (some value) s = (ok, value, s)

module _ {D : Type 0} (rocks : Database D) (lib : Library) where
  -- What the other threads do while a command waits: the peers commit up to the index, and the
  -- entries up to there are applied.
  commit_up_to : ℕ → Server D → Server D
  unfolding store_commit with_context
  commit_up_to index s = record s {
    node = store_commit (with_context (λ c. record c { commit_index = index }) s.node);
  }

  abbrev applied_or : Server D → Option (Server D) → Server D
  applied_or s none = s
  applied_or s (some s') = s'

  pub commit_and_apply : (ℕ → ℕ) → ℕ → Server D → Server D
  unfolding commit_up_to
  commit_and_apply now index s =
      applied_or s (apply_state_machine rocks lib now (commit_up_to index s))

  -- One more entry is applied.
  commit_and_apply_lem :
      (now : ℕ → ℕ) (s : Server D) (entries : List Entry) (args : List (List ℕ)) (term : ℕ)
      → Holds s.node.log (entries ++ logged args term ∷ [])
      → s.node.context.last_applied ≡ length entries
      → ((commit_and_apply now (suc (length entries)) s).cached
          ≡ (execute_command args [] s.cached).2)
        × ((commit_and_apply now (suc (length entries)) s).node.context.last_applied
            ≡ suc (length entries))
  unfolding commit_and_apply commit_up_to
  commit_and_apply_lem now s entries args term h applied =
      let (s', e, all, cached, last, meta, commit, log, db) =
        apply_state_machine-IsRedis rocks lib now (commit_up_to (suc (length entries)) s)
          (entries ++ logged args term ∷ []) h (omega (arith, applied))
          (omega (arith, length-append entries (logged args term ∷ [])))
          (subst AllRedis (sym one) (inl refl, tt)) in
      (
        ap (λ (o : Option (Server D)). (applied_or s o).cached) e
            ∙ cached
            ∙ ap (λ es. write_entries es s.cached) one
            ∙ (unfold write_entry in refl),
        ap (λ (o : Option (Server D)). (applied_or s o).node.context.last_applied) e ∙ last,
      )
    where
      one :
          committed (commit_up_to (suc (length entries)) s) (entries ++ logged args term ∷ [])
          ≡ logged args term ∷ []
      one = one_left s.node.context.last_applied entries (logged args term) applied

  -- The thread that waits is woken once, after the entry is applied.
  wait_applied-woken :
      (n : ℕ) (others : Server D → Server D) (s : Server D)
      → s.node.context.last_applied ≡ n
      → (others s).node.context.last_applied ≡ suc n
      → wait_applied (suc n) (others ∷ []) s ≡ (true, others s)
  unfolding wait_applied
  wait_applied-woken n others s behind there =
      rw
        (
          wait_applied,
          lt→ltb s.node.context.last_applied (suc n) (omega (arith, behind)),
          wait_applied-there [] (suc n) (others s)
              (ge→ltb (others s).node.context.last_applied (suc n) (omega (arith, there))),
        )
        refl

  set-binds :
      (name key value : List ℕ) (slots : Mcached)
      → IsValid slots
      → is_set_name name ≡ true
      → lookup (execute_command (name ∷ key ∷ value ∷ []) [] slots).2
        ≡ bind key value (lookup slots)
  set-binds name key value slots v set =
      ap (λ r. r.2) (execute_command-refines (name ∷ key ∷ value ∷ []) [] slots v).0
      ∙ (unfold abstract_execute in rw set refl)

  -- The set returns, and leaves the leader with the key bound.
  exec_mcached-binds :
      (forward : Address → CmdRequest → Status × CmdResponse) (now : ℕ → ℕ)
      (name key value res : List ℕ) (s : Server D) (entries : List Entry)
      → Holds s.node.log entries
      → length entries + 1 < size_mod
      → s.node.options.single_mode ≡ false
      → s.node.context.leader_address ≡ s.node.options.local
      → s.node.context.last_applied ≡ length entries
      → IsValid s.cached
      → is_set_name name ≡ true
      → is_read_only name ≡ false
      → (s' : Server D) × (exec_mcached rocks lib forward true
            (commit_and_apply now (suc (length entries)) ∷ [])
            (name ∷ key ∷ value ∷ [])
            res
            s
          ≡ (ok, [], s'))
        × (lookup s'.cached ≡ bind key value (lookup s.cached))
  unfolding exec_mcached build_exec_mcached_request is_ok
  exec_mcached-binds forward now name key value res s entries h room cluster lead applied v set
        no_get =
      let args = name ∷ key ∷ value ∷ [] in
      let s₁ : Server D = with_entry args s in
      let (holds, index) =
        append-Holds s.node.log entries (logged args s.node.context.current_term ∷ []) h room in
      let (cached, last) =
        commit_and_apply_lem now s₁ entries args s.node.context.current_term holds applied in
      let s₂ : Server D = commit_and_apply now (suc (length entries)) s₁ in
      let run =
        execute_cmd-logs rocks lib (commit_and_apply now (suc (length entries)) ∷ []) args s s₂
          entries h room cluster
          (wait_applied-woken (length entries) (commit_and_apply now (suc (length entries))) s₁
            applied last) in
      let led =
        do_command_lem rocks lib forward true (commit_and_apply now (suc (length entries)) ∷ [])
          (mcached_request_of args) no_response s lead
        ∙ run in
      (
        s₂,
        simp (exec_mcached, no_get, cluster, led),
        ap lookup cached ∙ set-binds name key value s.cached v set,
      )

  -- A read on this server answers from the table it has.
  exec_mcached-reads :
      (forward : Address → CmdRequest → Status × CmdResponse) (written : Bool)
      (signals : List (Server D → Server D)) (name key : List ℕ) (s : Server D)
      → is_set_name name ≡ false
      → is_read_only name ≡ true
      → exec_mcached rocks lib forward written signals (name ∷ key ∷ []) [] s
        ≡ read_result (lookup s.cached key) s
  unfolding exec_mcached is_exec_ok
  exec_mcached-reads forward written signals name key s no_set get =
      rw (get, execute_command-reads name key [] s.cached no_set get)
        (elim (Option-cases (lookup s.cached key)) [ inl e ↦ rw e refl | inr (v, e) ↦ rw e refl ])

  -- On a leader of a cluster that has applied its whole log, when the entry of a set is written,
  -- fits, and is committed and applied while `ExecMcached` waits, it returns without an error, and
  -- a read through `ExecMcached` after it, of any key, answers the value written for that key, and
  -- for every other key what the store held before.
  pub exec_mcached-reads_back :
      (forward : Address → CmdRequest → Status × CmdResponse) (now : ℕ → ℕ) (written : Bool)
      (signals : List (Server D → Server D)) (put get key value other res : List ℕ) (s : Server D)
      (entries : List Entry)
      → Holds s.node.log entries
      → length entries + 1 < size_mod
      → s.node.options.single_mode ≡ false
      → s.node.context.leader_address ≡ s.node.options.local
      → s.node.context.last_applied ≡ length entries
      → IsValid s.cached
      → is_set_name put ≡ true
      → is_read_only put ≡ false
      → is_set_name get ≡ false
      → is_read_only get ≡ true
      → (s' : Server D) × (exec_mcached rocks lib forward true
            (commit_and_apply now (suc (length entries)) ∷ [])
            (put ∷ key ∷ value ∷ [])
            res
            s
          ≡ (ok, [], s'))
        × (exec_mcached rocks lib forward written signals (get ∷ other ∷ []) [] s'
            ≡ read_result (bind key value (lookup s.cached) other) s')
  exec_mcached-reads_back forward now written signals put get key value other res s entries h room
        cluster lead applied v set no_get no_set reads =
      let (s', wrote, bound) =
        exec_mcached-binds forward now put key value res s entries h room cluster lead applied v set
          no_get in
      (
        s',
        wrote,
        exec_mcached-reads forward written signals get other s' no_set reads
            ∙ ap (λ m. read_result (m other) s') bound,
      )
