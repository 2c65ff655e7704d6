-- ===== src/Raft/Append.antt =====
-- Replication on a follower: `ReplyAppendEntries` of floyd/src/floyd_impl.cc. The writes of the log
-- succeed or not as an argument says; `none` is a truncation that does not end.
pub mod Expected
pub mod Steps
pub mod Replicated
pub mod Lost
use moxie_simple.Base.{
  ℕ, suc, ◌+◌, List, [], ◌∷◌, Bool, true, false, not, ◌&&◌, ◌||◌, Option, none, some, ltb, leb,
  ◌==◌, if◌then◌else◌, ◌>>=◌, min, length, size_add, bytes_eq,
}
use moxie_simple.Raft.{Address, nobody, AppendEntries, AppendEntriesResponse}
use moxie_simple.Raft.Log.{RaftLog, append, get_entry, truncate_suffix}
use moxie_simple.Raft.Node.{
  FloydImpl, FloydContext, Role, follower, candidate, leader, become_follower, store_term_and_vote,
  store_commit, with_context,
}

-- Whether the writes of one call succeed: those of `TruncateSuffix` behind the previous entry and at
-- an entry of another term, and that of `Append`.
pub record Writes : Type 0 where
  pub truncated : Bool
  pub removed : Bool
  pub appended : Bool

unfoldable pub is_waiting : FloydContext → Bool
unfolding bytes_eq
is_waiting c = elim c.role [
  | candidate ↦ true
  | follower ↦ bytes_eq c.leader_address.0 []
  | leader ↦ false
]

-- A leader that is new to the node is followed.
unfoldable pub follow : AppendEntries → FloydImpl → FloydImpl
unfolding is_waiting store_term_and_vote with_context become_follower
follow r s =
    if ltb s.context.current_term r.term
      || (r.term == s.context.current_term && is_waiting s.context)
    then store_term_and_vote (with_context (become_follower r.term r.address) s)
    else s

unfoldable pub with_log : RaftLog → FloydImpl → FloydImpl
with_log log s = record s { log = log }

-- `BuildAppendEntriesResponse`, with `GetLastLogIndex()`.
unfoldable pub respond : Bool → FloydImpl → AppendEntriesResponse × FloydImpl
respond success s = (
  record {
    term = s.context.current_term;
    success = success;
    last_log_index = s.log.last_log_index;
  },
  s,
)

-- `AdvanceFollowerCommitIndex`.
unfoldable pub advance_follower_commit_index : ℕ → FloydImpl → FloydImpl
unfolding store_commit with_context
advance_follower_commit_index leader_commit s =
    store_commit
      (with_context (λ c. record c { commit_index = min leader_commit s.log.last_log_index }) s)

-- The end of `ReplyAppendEntries`, from the test of the commit index on.
unfoldable pub commit : AppendEntries → FloydImpl → AppendEntriesResponse × FloydImpl
unfolding respond advance_follower_commit_index
commit r s =
    if not (r.leader_commit == s.context.commit_index)
    then (let s' = advance_follower_commit_index r.leader_commit s in
        respond true (record s' { applies = suc s'.applies }))
    else respond true s

-- The entries are appended, if there are any.
unfoldable pub append_new : Bool → AppendEntries → FloydImpl → AppendEntriesResponse × FloydImpl
append_new written r s =
    if ltb 0 (length r.entries)
    then (let (index, log) = append written r.entries s.log in
        let s' = with_log log s in if leb index 0 then respond false s' else commit r s')
    else commit r s

-- The term of the entry before the new ones; `none` if there is no such entry.
unfoldable pub prev_term : AppendEntries → RaftLog → Option ℕ
unfolding get_entry
prev_term r log =
    if r.prev_log_index == 0
    then some 0
    else elim (get_entry log r.prev_log_index) [ none ↦ none | some entry ↦ some entry.term ]

-- The comparison of the terms, and the truncation where they differ.
unfoldable pub match_prev :
    Writes → AppendEntries → FloydImpl → Option (AppendEntriesResponse × FloydImpl)
unfolding prev_term respond truncate_suffix with_log append_new
match_prev w r s = elim (prev_term r s.log) [
  | none ↦ some (respond false s)
  | some my_last_log_term ↦
      if not (r.prev_log_term == my_last_log_term)
      then (do
        log ← truncate_suffix w.removed r.prev_log_index s.log
        some (respond false (with_log log s)))
      else some (append_new w.appended r s)
]

unfoldable pub reply_append_entries :
    Writes → ℕ → AppendEntries → FloydImpl → Option (AppendEntriesResponse × FloydImpl)
reply_append_entries w now r s =
    let s = with_context (λ c. record c { last_op_time = now }) s in
    if ltb r.term s.context.current_term
    then some (respond false s)
    else (let s = follow r s in
        if ltb s.log.last_log_index r.prev_log_index then some (respond false s) else (do
          log ←
              (if ltb r.prev_log_index s.log.last_log_index
                then truncate_suffix w.truncated (size_add r.prev_log_index 1) s.log
                else some s.log)
          match_prev w r (with_log log s)))
