-- ===== src/Raft/Apply.antt =====
-- floyd/src/floyd_apply.cc: the committed entries, applied to the server. `none` is a read behind
-- the end of the list of members, which protobuf does not allow.
pub mod Members
pub mod Redis
pub mod Locks
use moxie_simple.Base.{
  ℕ, zero, suc, ◌-◌, List, [], ◌∷◌, ◌++◌, Bool, true, false, not, Option, none, some, ltb, leb,
  ◌==◌, if◌then◌else◌, ◌>>=◌, bytes_eq, length, take, set, get_elem?, get_or, size_add,
}
use moxie_simple.Raft.{
  Entry, OpType, read, write, delete, try_lock, unlock, add_server, remove_server, get_all_servers,
  mcached_write, mcached_read,
}
use moxie_simple.Raft.Log.{RaftLog, get_entry}
use moxie_simple.Raft.Node.{FloydImpl, with_context}
use moxie_simple.Raft.Server.{
  DbStatus, done, missing, failed, Database, Lock, Library, member_config_key, Server, insert_name,
  erase_name, add_new_peer, remove_out_peer,
}
use moxie_simple.Store.{execute_command}

-- A member is overwritten by the last one, and the last one removed.
unfoldable pub remove_at : ℕ → ℕ → List (List ℕ) → Option (List (List ℕ))
remove_at i count nodes =
    let moved = if i == count - 1 then some nodes else elim (get_elem? nodes (count - 1)) [
      | none ↦ none
      | some last ↦ some (set nodes i last)
    ] in
    elim moved [ none ↦ none | some nodes' ↦ some (take (length nodes' - 1) nodes') ]

-- The loop of `MembershipChange` from index `i` on, for `fuel` more indices; `count` is the number
-- of members before it. The Boolean tells whether it returned in the loop.
unfoldable pub change_loop :
    ℕ → ℕ → ℕ → List ℕ → Bool → List (List ℕ) → Option (Bool × List (List ℕ))
unfolding remove_at
change_loop zero i count ip_port add nodes = some (false, nodes)
change_loop (suc fuel) i count ip_port add nodes =
    let removed : Option (Bool × List (List ℕ)) = (do
      nodes' ← remove_at i count nodes
      change_loop fuel (suc i) count ip_port add nodes') in
    let kept = change_loop fuel (suc i) count ip_port add nodes in
    elim (get_elem? nodes i) [
      | none ↦ none
      | some node ↦
          if bytes_eq node ip_port then (if add then some (true, nodes) else removed) else kept
    ]

-- An entry before it is read: `Entry log_entry`.
abbrev pub no_entry : Entry
no_entry = record {
  optype = read;
  term = 0;
  key = [];
  value = [];
  holder = [];
  lease_end = 0;
  server = [];
  args = [];
}

-- `GetEntry` into a variable, which stays as it is if there is no such entry.
unfoldable pub read_entry : ℕ → Entry → RaftLog → Entry
unfolding get_entry
read_entry i e log = elim (get_entry log i) [ none ↦ e | some entry ↦ entry ]

-- `SetLastApplied` and the field.
unfoldable pub set_last_applied : {D : Type 0} → ℕ → Server D → Server D
unfolding with_context
set_last_applied i s =
    let node = with_context (λ c. record c { last_applied = i }) s.node in
    record s { node = record node { meta = record node.meta { last_applied = i } } }

module _ {D : Type 0} (rocks : Database D) (lib : Library) where
  -- `MembershipChange`.
  unfoldable pub membership_change : List ℕ → Bool → D → Option (DbStatus × D)
  unfolding change_loop
  membership_change ip_port add db =
      let (ret, value) = rocks.get member_config_key db in
      elim ret as (λ x. Option (DbStatus × D)) [
        | missing ↦ some (missing, db)
        | failed ↦ some (failed, db)
        | done ↦ elim (lib.parse_members value) [
          | none ↦ some (failed, db)
          | some members ↦ (do
            (returned, nodes) ← change_loop (length members) 0 (length members) ip_port add members
            some (
                if returned
                then (done, db)
                else elim (lib.serialize_members (if add then nodes ++ ip_port ∷ [] else nodes)) [
                  | none ↦ (failed, db)
                  | some value ↦ rocks.put member_config_key value db
                ]))
        ]
      ]

  -- A lock is written for its new holder.
  unfoldable pub put_lock : Entry → Server D → DbStatus × Server D
  put_lock e s =
      let lock = lib.serialize_lock (record { holder = e.holder; lease_end = e.lease_end }) in
      let (ret, db) = rocks.put e.key lock s.db in (ret, record s { db = db })

  unfoldable pub apply_delete : Entry → Server D → DbStatus × Server D
  apply_delete e s = let (ret, db) = rocks.del e.key s.db in (ret, record s { db = db })

  unfoldable pub apply_write : Entry → Server D → DbStatus × Server D
  apply_write e s = let (ret, db) = rocks.put e.key e.value s.db in (ret, record s { db = db })

  unfoldable pub apply_try_lock : ℕ → Entry → Server D → DbStatus × Server D
  unfolding put_lock
  apply_try_lock now e s =
      let (ret, val) = rocks.get e.key s.db in
      elim ret [
        | done ↦ if ltb (lib.parse_lock val).lease_end now then put_lock e s else (done, s)
        | missing ↦ put_lock e s
        | failed ↦ (failed, s)
      ]

  unfoldable pub apply_unlock : ℕ → Entry → Server D → DbStatus × Server D
  unfolding apply_delete
  apply_unlock now e s =
      let (ret, val) = rocks.get e.key s.db in
      elim ret [
        | done ↦
            if not (bytes_eq (lib.parse_lock val).holder e.holder)
            then (done, s)
            else (if ltb (lib.parse_lock val).lease_end now then (done, s) else apply_delete e s)
        | missing ↦ (done, s)
        | failed ↦ (failed, s)
      ]

  -- What follows a change of the members.
  unfoldable pub apply_members : Bool → Entry → Server D → Option (DbStatus × Server D)
  unfolding membership_change insert_name erase_name add_new_peer remove_out_peer
  apply_members add e s = do
    (ret, db) ← membership_change e.server add s.db
    let s' : Server D = record s { db = db } in
        some (elim ret as (λ x. DbStatus × Server D) [
          | missing ↦ (missing, s')
          | failed ↦ (failed, s')
          | done ↦ (
            done,
            if add
                then add_new_peer lib e.server
                    (record s' { members = insert_name e.server s'.members })
                else remove_out_peer lib e.server
                    (record s' { members = erase_name e.server s'.members }),
          )
        ])

  -- `Apply`, at the time `now`. The result of a Redis command is not looked at.
  unfoldable pub apply : ℕ → Entry → Server D → Option (DbStatus × Server D)
  unfolding apply_write apply_delete apply_try_lock apply_unlock apply_members
  apply now e s = elim e.optype [
    | mcached_read ↦ some (done, s)
    | mcached_write ↦ some (done, record s { cached = (execute_command e.args [] s.cached).2 })
    | write ↦ some (apply_write e s)
    | delete ↦ some (apply_delete e s)
    | read ↦ some (done, s)
    | try_lock ↦ some (apply_try_lock now e s)
    | unlock ↦ some (apply_unlock now e s)
    | add_server ↦ apply_members true e s
    | remove_server ↦ apply_members false e s
    | get_all_servers ↦ some (done, s)
  ]

  -- The loop of `ApplyStateMachine`, from the index after `last` on, for `fuel` entries; `e` is the
  -- entry that was read last, which stays when one is missing. `now i` is the time at which entry
  -- `i` is applied. The Boolean tells whether all were applied.
  unfoldable pub apply_loop : (ℕ → ℕ) → ℕ → ℕ → Entry → Server D → Option (Bool × Server D)
  unfolding apply read_entry
  apply_loop now zero last e s = some (true, s)
  apply_loop now (suc fuel) last e s =
      let e' = read_entry (suc last) e s.node.log in
      do
        (ret, s') ← apply (now (suc last)) e' s
        let rest = apply_loop now fuel (suc last) e' s' in
            elim ret [ done ↦ rest | missing ↦ some (false, s') | failed ↦ some (false, s') ]

  -- `ApplyStateMachine`. If an entry fails, it is scheduled again and nothing is noted of those
  -- before.
  unfoldable pub apply_state_machine : (ℕ → ℕ) → Server D → Option (Server D)
  unfolding apply_loop set_last_applied
  apply_state_machine now s =
      let last = s.node.context.last_applied in
      let commit_index = s.node.context.commit_index in
      if leb commit_index last then some s else (do
        (all, s') ← apply_loop now (commit_index - last) last no_entry s
        some (
            if all
            then set_last_applied commit_index s'
            else record s' { node = record s'.node { applies = suc s'.node.applies } }))
