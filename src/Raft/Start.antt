-- ===== src/Raft/Start.antt =====
-- `FloydImpl::Init` of floyd/src/floyd_impl.cc, on the databases that an earlier process has left.
-- That the databases open and the threads start is taken for granted.
pub mod Restarted
use moxie_simple.Base.{ℕ, List, [], ◌∷◌, Option, none, some}
use moxie_simple.Raft.Node.{FloydImpl, restart_node}
use moxie_simple.Raft.Server.{
  DbStatus, done, missing, failed, Database, Library, member_config_key, Server, insert_name,
  init_peers,
}
use moxie_simple.Store.{Mcached, new}

-- The members are inserted into the set one after another.
unfoldable pub insert_names : List (List ℕ) → List (List ℕ) → List (List ℕ)
unfolding insert_name
insert_names [] members = members
insert_names (m ∷ ms) members = insert_names ms (insert_name m members)

module _ {D : Type 0} (rocks : Database D) (lib : Library) where
  -- The members of the options are stored, for want of others.
  unfoldable pub record_members : List (List ℕ) → Server D → Option (Server D)
  unfolding insert_names
  record_members members s = elim (lib.serialize_members members) [
    | none ↦ none
    | some mval ↦
        let (ret, db) = rocks.put member_config_key mval s.db in
        elim ret [
          | done ↦ some (record s { db = db; members = insert_names members s.members })
          | missing ↦ none
          | failed ↦ none
        ]
  ]

  unfoldable pub recover_members : List (List ℕ) → Server D → Option (Server D)
  unfolding record_members insert_names
  recover_members members s =
      let (ret, mval) = rocks.get member_config_key s.db in
      elim ret [
        | done ↦ elim (lib.parse_members mval) [
          | none ↦ record_members members s
          | some db_members ↦ some (record s { members = insert_names db_members s.members })
        ]
        | missing ↦ record_members members s
        | failed ↦ record_members members s
      ]

  -- `Init` with the members of the options; `none` is a status that is not OK.
  unfoldable pub init : List (List ℕ) → Server D → Option (Server D)
  unfolding recover_members
  init members s =
      let empty = record s { node = restart_node s.node; cached = new; members = []; peers = [] } in
      elim (recover_members members empty) [
        | none ↦ none
        | some s' ↦ some (init_peers lib s'.members s')
      ]
