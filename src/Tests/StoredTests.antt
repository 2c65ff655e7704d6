-- ===== src/Tests/StoredTests.antt =====
-- The bytes of floyd/src/raft_meta.cc and raft_log.cc in a database that is a function, and the
-- member list of floyd/src/floyd_options.cc.
use moxie_simple.Base.{
  ℕ, ◌≡◌, ◌≢◌, refl, List, [], ◌∷◌, ◌++◌, false, Option, none, some, arith, bytes_eq, if◌then◌else◌,
}
use moxie_simple.Redis.Text.{codes}
use moxie_simple.Raft.Node.{FloydImpl, RaftMeta, follower}
use moxie_simple.Raft.Stored.{
  load_or_zero, bytes_or_empty, init_meta, current_term_key, vote_for_ip_key, vote_for_port_key,
  commit_index_key, last_applied_key, open_last_log_index,
}
use moxie_simple.Raft.Stored.Meta.{IsStore, Stores}
use moxie_simple.Raft.Stored.Init.{init_meta-Stores}
use moxie_simple.Raft.Stored.Opening.{IsDescending, meta_keys, log_keys, open_last_log_index_lem}
use moxie_simple.Raft.Options.{split}
use moxie_simple.Raft.Options.Split.{join, split-join}

abbrev Db : Type 0
Db = List ℕ → Option (List ℕ)

abbrev get : Db → List ℕ → Option (List ℕ)
get db k = db k

abbrev put : Db → List ℕ → List ℕ → Db
put db k v j = if bytes_eq j k then some v else db j

put-IsStore : IsStore get put
put-IsStore db k v j = refl

abbrev empty : Db
empty k = none

abbrev zeros : RaftMeta
zeros = record { current_term = 0; voted_for = ([], 0); commit_index = 0; last_applied = 0 }

empty-Stores : Stores get empty zeros
unfolding load_or_zero bytes_or_empty
empty-Stores = record { term = refl; ip = refl; port = refl; commit = refl; applied = refl }

-- A candidate in term 258 that has voted for 10.0.0.1:8901 and not stored anything.
abbrev node : FloydImpl
node = record {
  options = record {
    local = (codes "10.0.0.1", 8901);
    members = 3;
    single_mode = false;
    heartbeat_us = 3000000;
    check_leader_us = 6000000;
    append_entries_count_once = 1;
  };
  context = record {
    current_term = 258;
    role = follower;
    voted_for = (codes "10.0.0.1", 8901);
    leader_address = ([], 0);
    vote_quorum = 0;
    commit_index = 300;
    last_applied = 70000;
    last_op_time = 0;
  };
  meta = zeros;
  log = record { db = λ i. none; last_log_index = 0 };
  vote_for = λ t. none;
  applies = 0;
}

init_meta-Stores_example :
    (db' : Db) × (init_meta get put empty ≡ some db')
    × Stores get db' zeros
    × (get db' current_term_key ≢ none)
    × (get db' vote_for_ip_key ≢ none)
    × (get db' vote_for_port_key ≢ none)
    × (get db' commit_index_key ≢ none)
    × (get db' last_applied_key ≢ none)
init_meta-Stores_example = init_meta-Stores get put put-IsStore empty zeros empty-Stores

-- A log of three entries.
open_last_log_index_lem_example :
    IsDescending (meta_keys ++ log_keys 3)
    × (open_last_log_index (meta_keys ++ log_keys 3) ≡ some 3)
open_last_log_index_lem_example = open_last_log_index_lem 3 (omega arith)

split-join_example :
    split (codes "10.0.0.1:8901,10.0.0.2:8901") b','
    ≡ codes "10.0.0.1:8901" ∷ codes "10.0.0.2:8901" ∷ []
unfolding join
split-join_example =
    split-join b',' (codes "10.0.0.1:8901" ∷ codes "10.0.0.2:8901" ∷ []) (omega arith)
