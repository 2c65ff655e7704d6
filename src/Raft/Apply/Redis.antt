-- ===== src/Raft/Apply/Redis.antt =====
-- The Redis commands of the log, as floyd/src/floyd_apply.cc applies them to the store.
use moxie_simple.Base.{
  ℕ, suc, ◌+◌, ◌-◌, ◌<◌, ◌≤◌, ◌≡◌, refl, sym, ap, subst, ◌∙◌, List, [], ◌∷◌, true, false, some,
  arith, length, length-take, length-drop, take, drop, leb, get_elem?, get_elem?-drop, ◌⊎◌, inl,
  inr,
}
use moxie_simple.Raft.{
  Entry, read, get_all_servers, mcached_write, mcached_read, write, delete, try_lock, unlock,
  add_server, remove_server,
}
use moxie_simple.Raft.Log.{RaftLog, get_entry}
use moxie_simple.Raft.Log.Contents.{Holds, get_elem?-take_lt}
use moxie_simple.Raft.Node.{with_context}
use moxie_simple.Raft.Server.{done, Database, Library, Server}
use moxie_simple.Raft.Apply.{
  no_entry, read_entry, apply, apply_loop, set_last_applied, apply_state_machine,
}
use moxie_simple.Store.{Mcached, execute_command}

-- The entry leaves the database and the members alone.
abbrev pub IsRedis : Entry → Type 0
IsRedis e =
    (e.optype ≡ mcached_write)
    ⊎ (e.optype ≡ mcached_read)
    ⊎ (e.optype ≡ read)
    ⊎ (e.optype ≡ get_all_servers)

-- What one entry and a list of entries make of a store.
unfoldable pub write_entry : Entry → Mcached → Mcached
write_entry e cached = elim e.optype [
  | mcached_write ↦ (execute_command e.args [] cached).2
  | read ↦ cached
  | write ↦ cached
  | delete ↦ cached
  | try_lock ↦ cached
  | unlock ↦ cached
  | add_server ↦ cached
  | remove_server ↦ cached
  | get_all_servers ↦ cached
  | mcached_read ↦ cached
]

abbrev pub write_entries : List Entry → Mcached → Mcached
write_entries [] cached = cached
write_entries (e ∷ es) cached = write_entries es (write_entry e cached)

abbrev pub AllRedis : List Entry → Type 0
AllRedis [] = Unit {0}
AllRedis (e ∷ es) = IsRedis e × AllRedis es

read_entry_lem : (i : ℕ) (e x : Entry) (log : RaftLog) → log.db i ≡ some x → read_entry i e log ≡ x
unfolding read_entry get_entry
read_entry_lem i e x log h = simp (read_entry, h)

-- The entries behind the last applied one, up to the commit index.
abbrev pub committed : {D : Type 0} → Server D → List Entry → List Entry
committed s entries =
    take (s.node.context.commit_index - s.node.context.last_applied)
      (drop s.node.context.last_applied entries)

-- A server with another store, that has noted an index as applied, and is the same in all else.
abbrev pub applied_up_to : {D : Type 0} → ℕ → Mcached → Server D → Server D
applied_up_to i cached s = record s {
  cached = cached;
  node = record s.node {
    context = record s.node.context { last_applied = i };
    meta = record s.node.meta { last_applied = i };
  };
}

module _ {D : Type 0} (rocks : Database D) (lib : Library) where
  apply-IsRedis :
      (now : ℕ) (e : Entry) (s : Server D)
      → IsRedis e
      → apply rocks lib now e s ≡ some (done, record s { cached = write_entry e s.cached })
  unfolding apply write_entry
  apply-IsRedis now e s (inl h) = simp (apply, write_entry, h)
  apply-IsRedis now e s (inr (inl h)) = simp (apply, write_entry, h)
  apply-IsRedis now e s (inr (inr (inl h))) = simp (apply, write_entry, h)
  apply-IsRedis now e s (inr (inr (inr h))) = simp (apply, write_entry, h)

  apply_loop-IsRedis :
      (now : ℕ → ℕ) (es : List Entry) (last : ℕ) (e : Entry) (s : Server D)
      → ((i : ℕ) → i < length es → s.node.log.db (suc (last + i)) ≡ get_elem? es i)
      → AllRedis es
      → apply_loop rocks lib now (length es) last e s
        ≡ some (true, record s { cached = write_entries es s.cached })
  unfolding apply_loop
  apply_loop-IsRedis now [] last e s stored redis = refl
  apply_loop-IsRedis now (x ∷ es) last e s stored (this, others) =
      let first : read_entry (suc last) e s.node.log ≡ x =
        read_entry_lem (suc last) e x s.node.log
          (ap (λ k. s.node.log.db (suc k)) (plus_zero last) ∙ stored 0 (omega arith)) in
      let rest =
        apply_loop-IsRedis now es (suc last) x (record s { cached = write_entry x s.cached })
          (λ i small.
            (ap (λ k. s.node.log.db (suc k)) (plus_suc last i) ∙ stored (suc i) (omega arith)))
          others in
      rw (apply_loop, first, apply-IsRedis (now (suc last)) x s this, first) rest
    where
      plus_zero : (n : ℕ) → n ≡ n + 0
      plus_zero n = omega arith

      plus_suc : (n i : ℕ) → suc n + i ≡ n + suc i
      plus_suc n i = omega arith

  -- If the log holds the entries up to the commit index, some of them are not applied, and those are
  -- Redis commands or reads, `ApplyStateMachine` applies each once and in order to the store, and
  -- notes the commit index as applied, in memory and in the database. The server is the same in all
  -- else.
  pub apply_state_machine-IsRedis :
      (now : ℕ → ℕ) (s : Server D) (entries : List Entry)
      → Holds s.node.log entries
      → s.node.context.last_applied < s.node.context.commit_index
      → s.node.context.commit_index ≤ length entries
      → AllRedis (committed s entries)
      → (s' : Server D) × (apply_state_machine rocks lib now s ≡ some s')
        × (s'
            ≡ applied_up_to s.node.context.commit_index
                (write_entries (committed s entries) s.cached)
                s)
        × (s'.cached ≡ write_entries (committed s entries) s.cached)
        × (s'.node.context.last_applied ≡ s.node.context.commit_index)
        × (s'.node.meta.last_applied ≡ s.node.context.commit_index)
        × (s'.node.meta.commit_index ≡ s.node.meta.commit_index)
        × (s'.node.log ≡ s.node.log)
        × (s'.db ≡ s.db)
  unfolding apply_state_machine set_last_applied with_context
  apply_state_machine-IsRedis now s entries h order reach redis =
      let last = s.node.context.last_applied in
      let commit_index = s.node.context.commit_index in
      let es = committed s entries in
      let new : leb commit_index last ≡ false = ground arith in
      let fuel : length es ≡ commit_index - last = omega (
        arith,
        length-take (commit_index - last) (drop last entries),
        length-drop last entries,
        order,
        reach,
      ) in
      let all =
        subst
          (λ n.
            apply_loop rocks lib now n last no_entry s
            ≡ some (true, record s { cached = write_entries es s.cached }))
          fuel
          (apply_loop-IsRedis now es last no_entry s
            (λ i small. stored s entries h i (omega (arith, fuel, small)) reach) redis) in
      (
        set_last_applied commit_index (record s { cached = write_entries es s.cached }),
        rw (apply_state_machine, new, all) refl,
        refl,
        refl,
        refl,
        refl,
        refl,
        refl,
        refl,
      )
    where
      stored :
          (s : Server D) (entries : List Entry)
          → Holds s.node.log entries
          → (i : ℕ) → i < s.node.context.commit_index - s.node.context.last_applied
          → s.node.context.commit_index ≤ length entries
          → s.node.log.db (suc (s.node.context.last_applied + i))
            ≡ get_elem? (committed s entries) i
      stored s entries h i small reach =
          let last = s.node.context.last_applied in
          let at = h.entry_at (last + i) (omega (arith, small, reach)) in
          at
          ∙ sym (get_elem?-drop last entries i)
          ∙ sym (get_elem?-take_lt (drop last entries) (s.node.context.commit_index - last) i small)
