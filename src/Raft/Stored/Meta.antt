-- ===== src/Raft/Stored/Meta.antt =====
-- The setters and getters of floyd/src/raft_meta.cc implement the record of values that the model
-- of a node has.
use moxie_simple.Base.{
  ℕ, ◌^◌, ◌<◌, ◌≡◌, refl, ap, ◌∙◌, List, Option, some, arith, if◌then◌else◌, bytes_eq,
  bytes_eq_refl, false,
}
use moxie_simple.Raft.Node.{RaftMeta}
use moxie_simple.Raft.Stored.{
  to_bytes, load_or_zero, bytes_or_empty, current_term_key, vote_for_ip_key, vote_for_port_key,
  commit_index_key, last_applied_key, set_current_term, set_voted_for_ip, set_voted_for_port,
  set_commit_index, set_last_applied,
}
use moxie_simple.Raft.Stored.Bytes.{IsWord, load-to_bytes}

-- What `Put` and `Get` document, when the write succeeds: a key has the value that was put last,
-- and other keys have theirs.
abbrev pub IsStore :
    {Db : Type 0} → (Db → List ℕ → Option (List ℕ)) → (Db → List ℕ → List ℕ → Db) → Type 0
IsStore {Db} get put =
    (db : Db) (k v j : List ℕ) → get (put db k v) j ≡ (if bytes_eq j k then some v else get db j)

-- The database stands for these values.
pub record Stores {Db : Type 0} (get : Db → List ℕ → Option (List ℕ)) (db : Db) (m : RaftMeta)
    : Type 0 where
  pub term : load_or_zero 8 (get db current_term_key) ≡ some m.current_term
  pub ip : bytes_or_empty (get db vote_for_ip_key) ≡ m.voted_for.0
  pub port : load_or_zero 4 (get db vote_for_port_key) ≡ some m.voted_for.1
  pub commit : load_or_zero 8 (get db commit_index_key) ≡ some m.commit_index
  pub applied : load_or_zero 8 (get db last_applied_key) ≡ some m.last_applied

read-to_bytes : (n x : ℕ) → IsWord n x → load_or_zero n (some (to_bytes n x)) ≡ some x
unfolding load_or_zero
read-to_bytes n x fits = load-to_bytes n x fits

module _ {Db : Type 0} (get : Db → List ℕ → Option (List ℕ)) (put : Db → List ℕ → List ℕ → Db)
    (store : IsStore get put) where
  pub get-put : (db : Db) (k v : List ℕ) → get (put db k v) k ≡ some v
  get-put db k v = store db k v k ∙ rw (bytes_eq_refl k) refl

  other_number :
      (n x : ℕ) (db : Db) (k v j : List ℕ)
      → bytes_eq j k ≡ false
      → load_or_zero n (get db j) ≡ some x
      → load_or_zero n (get (put db k v) j) ≡ some x
  other_number n x db k v j other h = ap (load_or_zero n) (store db k v j ∙ rw other refl) ∙ h

  other_text :
      (text : List ℕ) (db : Db) (k v j : List ℕ)
      → bytes_eq j k ≡ false
      → bytes_or_empty (get db j) ≡ text
      → bytes_or_empty (get (put db k v) j) ≡ text
  other_text text db k v j other h = ap bytes_or_empty (store db k v j ∙ rw other refl) ∙ h

  put_number :
      (n x : ℕ) (db : Db) (k : List ℕ)
      → IsWord n x
      → load_or_zero n (get (put db k (to_bytes n x)) k) ≡ some x
  put_number n x db k fits =
      ap (load_or_zero n) (get-put db k (to_bytes n x)) ∙ read-to_bytes n x fits

  pub set_current_term-Stores :
      (db : Db) (m : RaftMeta) (x : ℕ)
      → x < 2 ^ 64
      → Stores get db m
      → Stores get (set_current_term get put x db) (record m { current_term = x })
  unfolding set_current_term bytes_eq
  set_current_term-Stores db m x fits h = record {
    term = put_number 8 x db current_term_key (omega arith);
    ip = other_text _ db current_term_key (to_bytes 8 x) vote_for_ip_key refl h.ip;
    port = other_number 4 _ db current_term_key (to_bytes 8 x) vote_for_port_key refl h.port;
    commit = other_number 8 _ db current_term_key (to_bytes 8 x) commit_index_key refl h.commit;
    applied = other_number 8 _ db current_term_key (to_bytes 8 x) last_applied_key refl h.applied;
  }

  pub set_voted_for_ip-Stores :
      (db : Db) (m : RaftMeta) (x : List ℕ)
      → Stores get db m
      → Stores get (set_voted_for_ip get put x db) (record m { voted_for = (x, m.voted_for.1) })
  unfolding set_voted_for_ip bytes_eq bytes_or_empty
  set_voted_for_ip-Stores db m x h = record {
    term = other_number 8 _ db vote_for_ip_key x current_term_key refl h.term;
    ip = ap bytes_or_empty (get-put db vote_for_ip_key x);
    port = other_number 4 _ db vote_for_ip_key x vote_for_port_key refl h.port;
    commit = other_number 8 _ db vote_for_ip_key x commit_index_key refl h.commit;
    applied = other_number 8 _ db vote_for_ip_key x last_applied_key refl h.applied;
  }

  pub set_voted_for_port-Stores :
      (db : Db) (m : RaftMeta) (x : ℕ)
      → x < 2 ^ 32
      → Stores get db m
      → Stores get (set_voted_for_port get put x db) (record m { voted_for = (m.voted_for.0, x) })
  unfolding set_voted_for_port bytes_eq
  set_voted_for_port-Stores db m x fits h = record {
    term = other_number 8 _ db vote_for_port_key (to_bytes 4 x) current_term_key refl h.term;
    ip = other_text _ db vote_for_port_key (to_bytes 4 x) vote_for_ip_key refl h.ip;
    port = put_number 4 x db vote_for_port_key (omega arith);
    commit = other_number 8 _ db vote_for_port_key (to_bytes 4 x) commit_index_key refl h.commit;
    applied = other_number 8 _ db vote_for_port_key (to_bytes 4 x) last_applied_key refl h.applied;
  }

  pub set_commit_index-Stores :
      (db : Db) (m : RaftMeta) (x : ℕ)
      → x < 2 ^ 64
      → Stores get db m
      → Stores get (set_commit_index get put x db) (record m { commit_index = x })
  unfolding set_commit_index bytes_eq
  set_commit_index-Stores db m x fits h = record {
    term = other_number 8 _ db commit_index_key (to_bytes 8 x) current_term_key refl h.term;
    ip = other_text _ db commit_index_key (to_bytes 8 x) vote_for_ip_key refl h.ip;
    port = other_number 4 _ db commit_index_key (to_bytes 8 x) vote_for_port_key refl h.port;
    commit = put_number 8 x db commit_index_key (omega arith);
    applied = other_number 8 _ db commit_index_key (to_bytes 8 x) last_applied_key refl h.applied;
  }

  pub set_last_applied-Stores :
      (db : Db) (m : RaftMeta) (x : ℕ)
      → x < 2 ^ 64
      → Stores get db m
      → Stores get (set_last_applied get put x db) (record m { last_applied = x })
  unfolding set_last_applied bytes_eq
  set_last_applied-Stores db m x fits h = record {
    term = other_number 8 _ db last_applied_key (to_bytes 8 x) current_term_key refl h.term;
    ip = other_text _ db last_applied_key (to_bytes 8 x) vote_for_ip_key refl h.ip;
    port = other_number 4 _ db last_applied_key (to_bytes 8 x) vote_for_port_key refl h.port;
    commit = other_number 8 _ db last_applied_key (to_bytes 8 x) commit_index_key refl h.commit;
    applied = put_number 8 x db last_applied_key (omega arith);
  }
