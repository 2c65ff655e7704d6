-- ===== src/Raft/Log.antt =====
-- floyd/src/raft_log.cc: the log of a node, kept in a database under the indices of its entries. An
-- entry stands for its serialized form. A write of the database succeeds or not, as an argument
-- says.
pub mod Contents
use moxie_simple.Base.{
  ℕ, zero, suc, ◌-◌, List, [], ◌∷◌, Bool, true, Option, none, some, leb, ◌==◌, if◌then◌else◌,
  length, update, size_add, size_sub,
}
use moxie_simple.Raft.{Entry}

-- `class RaftLog` with the keys of `db_` that belong to it.
pub record RaftLog : Type 0 where
  pub db : ℕ → Option Entry
  pub last_log_index : ℕ

-- The loop of `Append`, as if the batch were written at once.
unfoldable pub put_all : List Entry → RaftLog → RaftLog
unfolding update
put_all [] log = log
put_all (entry ∷ entries) log =
    let index = size_add log.last_log_index 1 in
    put_all entries (record { db = update log.db index (some entry); last_log_index = index })

-- `Append`, which returns the last index. A batch that is not written takes the index back.
unfoldable pub append : Bool → List Entry → RaftLog → ℕ × RaftLog
unfolding put_all
append written entries log =
    let log' = put_all entries log in
    let back = size_sub log'.last_log_index (length entries) in
    if written then (log'.last_log_index, log') else (back, record log { last_log_index = back })

-- `GetEntry`: `none` is the result 1.
unfoldable pub get_entry : RaftLog → ℕ → Option Entry
get_entry log index = log.db index

-- `GetLastLogTermAndIndex`: the term and the index.
unfoldable pub get_last_log_term_and_index : RaftLog → ℕ × ℕ
get_last_log_term_and_index log =
    if log.last_log_index == 0 then (0, 0) else elim (log.db log.last_log_index) [
      | none ↦ (0, 0)
      | some entry ↦ (entry.term, log.last_log_index)
    ]

-- The loop of `TruncateSuffix` from the last index downwards: the keys that are left, and the last
-- index. At index 0 it wraps around and does not end, which is `none`.
unfoldable pub truncate_loop : ℕ → ℕ → (ℕ → Option Entry) → Option ((ℕ → Option Entry) × ℕ)
unfolding update
truncate_loop index zero db = if index == 0 then none else some (db, 0)
truncate_loop index (suc last) db =
    let rest = truncate_loop index last (update db (suc last) none) in
    if leb index (suc last) then rest else some (db, suc last)

-- `TruncateSuffix`. The last index is lowered also if the batch is not written.
unfoldable pub truncate_suffix : Bool → ℕ → RaftLog → Option RaftLog
unfolding truncate_loop
truncate_suffix written index log = elim (truncate_loop index log.last_log_index log.db) [
  | none ↦ none
  | some (db, last) ↦ some (record { db = (if written then db else log.db); last_log_index = last })
]
