-- ===== src/Tests/ServerTests.antt =====
-- Servers of the Raft cluster in floyd/src, over a database that is an association list.
use moxie_simple.Base.{
  ℕ, zero, suc, ◌≡◌, refl, ◌∙◌, inl, List, [], ◌∷◌, ◌++◌, true, false, none, some, arith,
  if◌then◌else◌, size_add, bytes_eq, bytes_eq_refl,
}
use moxie_simple.Raft.{Entry, mcached_write, try_lock}
use moxie_simple.Raft.Log.{put_all}
use moxie_simple.Raft.Log.Contents.{Holds, put_all-Holds}
use moxie_simple.Raft.Node.{leader, restart_node}
use moxie_simple.Raft.Server.{
  DbStatus, done, missing, Database, Library, Lock, Server, member_config_key, init_peers,
}
use moxie_simple.Raft.Apply.{
  put_lock, apply_try_lock, set_last_applied, read_entry, apply, apply_loop, apply_state_machine,
}
use moxie_simple.Raft.Apply.Redis.{
  committed, applied_up_to, write_entry, write_entries, apply_state_machine-IsRedis,
}
use moxie_simple.Raft.Apply.Locks.{asked_lock, apply_try_lock-excludes, apply_try_lock-diverges}
use moxie_simple.Raft.Start.{init, recover_members, record_members}
use moxie_simple.Raft.Start.Restarted.{init-loses}
use moxie_simple.Raft.Command.{k_mcached_write, k_ok, no_response}
use moxie_simple.Raft.Execute.{ok, incomplete, wait_applied, execute_cmd, exec_mcached}
use moxie_simple.Raft.Execute.Redis.{mcached_request_of, with_entry}
use moxie_simple.Raft.Execute.Unlogged.{execute_cmd-loses}
use moxie_simple.Raft.Execute.ReadBack.{read_result, commit_and_apply, exec_mcached-reads_back}
use moxie_simple.Store.{SlotObject, find, assign, new, lookup, is_set_name, is_read_only}
use moxie_simple.Store.Commands.{find-assign, bind, new-empty}
use moxie_simple.Raft.Events.{asked, here, next}
use moxie_simple.Raft.Events.VoteKept.{reply_request_vote-same_address}
use moxie_simple.Tests.RaftTests.{
  local, node, empty, empty-Holds, other, third, asks, later, is_granted, is_granted_again,
}

get : List ℕ → SlotObject → DbStatus × List ℕ
unfolding find
get key db = elim (find key db) [ none ↦ (missing, []) | some value ↦ (done, value) ]

without : List ℕ → SlotObject → SlotObject
without key [] = []
without key ((k, v) ∷ db) =
    let rest = without key db in if bytes_eq k key then rest else (k, v) ∷ rest

abbrev rocks : Database SlotObject
rocks = record {
  get = get;
  put = λ key value db. (done, assign key value db);
  del = λ key db. (done, without key db);
}

get_put :
    (key value : List ℕ) (db : SlotObject)
    → done ≡ done
    → get key (assign key value db) ≡ (done, value)
unfolding get
get_put key value db e =
    let there : find key (assign key value db) ≡ some value =
      find-assign key key value db ∙ rw (bytes_eq_refl key) refl in
    rw (get, there) refl

-- Each name ends with a zero.
serialize_members : List (List ℕ) → List ℕ
serialize_members [] = []
serialize_members (m ∷ ms) = m ++ 0 ∷ serialize_members ms

parse_members : List ℕ → List ℕ → List (List ℕ)
parse_members name [] = []
parse_members name (zero ∷ cs) = name ∷ parse_members [] cs
parse_members name (suc c ∷ cs) = parse_members (name ++ suc c ∷ []) cs

parse_lock : List ℕ → Lock
parse_lock [] = record { holder = []; lease_end = 0 }
parse_lock (lease_end ∷ holder) = record { holder = holder; lease_end = lease_end }

abbrev lib : Library
lib = record {
  serialize_lock = λ lock. lock.lease_end ∷ lock.holder;
  parse_lock = parse_lock;
  serialize_members = λ ms. some (serialize_members ms);
  parse_members = λ value. some (parse_members [] value);
  ip_port_string = λ a. a.0 ++ 58 ∷ a.1 ∷ [];
}

parse_serialize : (lock : Lock) → parse_lock (lock.lease_end ∷ lock.holder) ≡ lock
unfolding parse_lock
parse_serialize lock = refl

-- `set k v`.
abbrev set_k : List (List ℕ)
set_k = (b's' ∷ b'e' ∷ b't' ∷ []) ∷ (107 ∷ []) ∷ (118 ∷ []) ∷ []

abbrev redis_entry : Entry
redis_entry = record {
  optype = mcached_write;
  term = 1;
  key = [];
  value = [];
  holder = [];
  lease_end = 0;
  server = [];
  args = set_k;
}

abbrev two : List Entry
two = redis_entry ∷ redis_entry ∷ []

two-Holds : Holds (put_all two empty) two
two-Holds = put_all-Holds two empty [] empty-Holds (omega arith)

-- It has applied the first of two committed entries.
abbrev server : Server SlotObject
server = record {
  node = record node {
    log = put_all two empty;
    context = record node.context { commit_index = 2 };
    meta = record node.meta { commit_index = 2 };
  };
  db = [];
  cached = new;
  members = [];
  peers = [];
}

apply_state_machine-IsRedis_example :
    (s' : Server SlotObject) × (apply_state_machine rocks lib (λ i. 7) server ≡ some s')
    × (s' ≡ applied_up_to 2 (write_entries (committed server two) new) server)
    × (s'.cached ≡ write_entries (committed server two) new)
    × (s'.node.context.last_applied ≡ 2)
    × (s'.node.meta.last_applied ≡ 2)
    × (s'.node.meta.commit_index ≡ 2)
    × (s'.node.log ≡ put_all two empty)
    × (s'.db ≡ [])
apply_state_machine-IsRedis_example =
    apply_state_machine-IsRedis rocks lib (λ i. 7) server two two-Holds (omega arith) (omega arith)
      (inl refl, tt)

abbrev lock_entry : List ℕ → ℕ → Entry
lock_entry holder lease_end = record redis_entry {
  optype = try_lock;
  key = 107 ∷ [];
  holder = holder;
  lease_end = lease_end;
}

-- The lock is free, and ends at 100.
apply_try_lock-excludes_example :
    let (ret, s') = apply_try_lock rocks lib 7 (lock_entry (97 ∷ []) 100) server in
    (ret ≡ done)
    × ((get (107 ∷ []) s'.db).0 ≡ done)
    × (parse_lock (get (107 ∷ []) s'.db).1 ≡ asked_lock (lock_entry (97 ∷ []) 100))
    × (apply_try_lock rocks lib 50 (lock_entry (98 ∷ []) 200) s' ≡ (done, s'))
unfolding get put_lock
apply_try_lock-excludes_example =
    apply_try_lock-excludes rocks lib get_put parse_serialize 7 50 (lock_entry (97 ∷ []) 100)
      (lock_entry (98 ∷ []) 200) server (inl refl) refl refl (omega arith)

-- The lock of `a` ends at 100.
abbrev locked : Server SlotObject
locked = record server { db = ((107 ∷ []), (100 ∷ 97 ∷ [])) ∷ [] }

apply_try_lock-diverges_example :
    let s₁ = (apply_try_lock rocks lib 100 (lock_entry (98 ∷ []) 200) locked).1 in
    let s₂ = (apply_try_lock rocks lib 101 (lock_entry (98 ∷ []) 200) locked).1 in
    (parse_lock (get (107 ∷ []) s₁.db).1 ≡ parse_lock (get (107 ∷ []) locked.db).1)
    × (parse_lock (get (107 ∷ []) s₂.db).1 ≡ asked_lock (lock_entry (98 ∷ []) 200))
unfolding get put_lock parse_lock bytes_eq
apply_try_lock-diverges_example =
    apply_try_lock-diverges rocks lib get_put parse_serialize 100 101 (lock_entry (98 ∷ []) 200)
      locked refl (omega arith) (omega arith) refl

abbrev members : List (List ℕ)
members = (97 ∷ []) ∷ (98 ∷ []) ∷ (99 ∷ []) ∷ []

abbrev applied : Server SlotObject
applied = set_last_applied 2 (record server { cached = write_entries (committed server two) new })

applied_lem : apply_state_machine rocks lib (λ i. 7) server ≡ some applied
unfolding apply_state_machine apply_loop apply read_entry put_all size_add write_entry
applied_lem = refl

abbrev opened : Server SlotObject
opened = init_peers lib members (record applied {
  node = restart_node applied.node;
  cached = new;
  db = assign member_config_key (serialize_members members) [];
  members = members;
  peers = [];
})

opened_lem : init rocks lib members applied ≡ some opened
unfolding init recover_members record_members get bytes_eq set_last_applied
opened_lem = refl

init-loses_example :
    (applied.cached ≡ write_entries (committed server two) new)
    × (opened.cached ≡ new)
    × (apply_state_machine rocks lib (λ i. 9) opened ≡ some opened)
init-loses_example =
    init-loses rocks lib (λ i. 7) (λ i. 9) members server applied opened two two-Holds (omega arith)
      (omega arith) refl (inl refl, tt) applied_lem opened_lem

-- A leader that has applied all of its log.
abbrev leading : Server SlotObject
leading = record server {
  node = record server.node {
    context = record server.node.context {
      role = leader;
      leader_address = local;
      last_applied = 2;
    };
  };
}

execute_cmd-loses_example :
    execute_cmd rocks lib false [] (mcached_request_of set_k) no_response leading
    ≡ (ok, record no_response { type = k_mcached_write; code = k_ok }, leading)
execute_cmd-loses_example =
    execute_cmd-loses rocks lib [] (mcached_request_of set_k) no_response leading two two-Holds
      (omega arith) (omega arith) (omega arith) refl (inl refl)

-- `set k v`, and `get k`.
exec_mcached-reads_back_example :
    (s' : Server SlotObject) × (exec_mcached rocks lib
        (λ a r. (incomplete, no_response))
        true
        (commit_and_apply rocks lib (λ i. 7) 3 ∷ [])
        set_k
        []
        leading
      ≡ (ok, [], s'))
    × (exec_mcached rocks lib
          (λ a r. (incomplete, no_response))
          true
          []
          ((b'g' ∷ b'e' ∷ b't' ∷ []) ∷ (107 ∷ []) ∷ [])
          []
          s'
        ≡ read_result (bind (107 ∷ []) (118 ∷ []) (lookup new) (107 ∷ [])) s')
unfolding is_set_name is_read_only bytes_eq
exec_mcached-reads_back_example =
    exec_mcached-reads_back rocks lib (λ a r. (incomplete, no_response)) (λ i. 7) true []
      (b's' ∷ b'e' ∷ b't' ∷ []) (b'g' ∷ b'e' ∷ b't' ∷ []) (107 ∷ []) (118 ∷ []) (107 ∷ []) []
      leading two two-Holds (omega arith) refl refl refl new-empty.0 refl refl refl refl

-- `del k`, and what it leaves when the others have applied it.
abbrev del_k : List (List ℕ)
del_k = (b'd' ∷ b'e' ∷ b'l' ∷ []) ∷ (107 ∷ []) ∷ []

abbrev then_applied : Server SlotObject → Server SlotObject
then_applied s = record s {
  node = record s.node { context = record s.node.context { last_applied = 3 } };
}

waited :
    wait_applied 3 (then_applied ∷ []) (with_entry del_k leading)
    ≡ (true, then_applied (with_entry del_k leading))
unfolding wait_applied
waited = refl

reply_request_vote-same_address_example : other ≡ other
reply_request_vote-same_address_example =
    reply_request_vote-same_address rocks lib 9 11 (asks other) (asks other) node later is_granted
      (next here (asked 10 (asks third))) is_granted_again refl
