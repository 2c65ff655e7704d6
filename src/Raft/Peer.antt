-- ===== src/Raft/Peer.antt =====
-- Replication on a leader: floyd/src/floyd_peer_thread.cc. A peer is known by its indices; the
-- network carries a request to the peer and its answer back, or nothing.
pub mod Quorum
pub mod Progress
pub mod Collected
pub mod Rounds
pub mod CatchUp
use moxie_simple.Base.{
  ℕ, zero, suc, ◌+◌, ◌-◌, ◌/◌, List, [], ◌∷◌, ◌++◌, Bool, true, false, ◌&&◌, ◌||◌, Option, none,
  some, ltb, leb, ◌==◌, if◌then◌else◌, min, length, get_elem?, size_add, size_sub, ◌>>=◌,
}
use moxie_simple.Raft.{nobody, Entry, AppendEntries, AppendEntriesResponse}
use moxie_simple.Raft.Log.{RaftLog, get_entry}
use moxie_simple.Raft.Node.{
  FloydImpl, Role, follower, candidate, leader, become_follower, store_term_and_vote, store_commit,
  with_context,
}

-- The fields of `class Peer` that change.
pub record Peer : Type 0 where
  pub next_index : ℕ
  pub match_index : ℕ
  pub peer_last_op_time : ℕ

-- The constructor, from the log and from what `RaftMeta` has stored.
unfoldable pub new_peer : FloydImpl → Peer
new_peer s = record {
  next_index = size_add s.log.last_log_index 1;
  match_index = s.meta.last_applied;
  peer_last_op_time = 0;
}

-- `UpdatePeerInfo` for one peer.
unfoldable pub update_peer_info : FloydImpl → Peer → Peer
update_peer_info s p = record p { next_index = size_add s.log.last_log_index 1; match_index = 0 }

-- `std::sort`.
unfoldable pub insert_sorted : ℕ → List ℕ → List ℕ
insert_sorted x [] = x ∷ []
insert_sorted x (y ∷ ys) = let rest = insert_sorted x ys in if leb x y then x ∷ y ∷ ys else y ∷ rest

unfoldable pub sort : List ℕ → List ℕ
unfolding insert_sorted
sort [] = []
sort (x ∷ xs) = insert_sorted x (sort xs)

-- `QuorumMatchIndex` of the indices of all peers; `none` is the read of `values[3]` for the log
-- where there are fewer than four.
unfoldable pub quorum_match_index : List ℕ → Option ℕ
unfolding sort
quorum_match_index values =
    if ltb (length values) 4 then none else get_elem? (sort values) (length values / 2)

-- `AdvanceLeaderCommitIndex`.
unfoldable pub advance_leader_commit_index : List ℕ → FloydImpl → Option FloydImpl
unfolding store_commit with_context
advance_leader_commit_index values s = do
  new_commit_index ← quorum_match_index values
  some (
      if ltb s.context.commit_index new_commit_index
      then store_commit (with_context (λ c. record c { commit_index = new_commit_index }) s)
      else s)

-- The loop of `AppendEntriesRPC` that collects the entries. Its fuel is the number of indices from
-- the first to the last. `byte_size` is `ByteSize` of a message with the given entries.
module _ (byte_size : List Entry → ℕ) (size_once : ℕ) where
  unfoldable pub collect : ℕ → ℕ → RaftLog → ℕ → List Entry → List Entry
  unfolding get_entry
  collect count_once zero log index sent = sent
  collect count_once (suc fuel) log index sent = elim (get_entry log index) [
    | none ↦ sent
    | some entry ↦
        let more = collect count_once fuel log (suc index) (sent ++ entry ∷ []) in
        if leb count_once (length (sent ++ entry ∷ []))
          || leb size_once (byte_size (sent ++ entry ∷ []))
        then sent ++ entry ∷ []
        else more
  ]

  -- The message that `AppendEntriesRPC` sends.
  unfoldable pub append_request : FloydImpl → Peer → AppendEntries
  unfolding collect get_entry
  append_request s p =
      let prev_log_index = size_sub p.next_index 1 in
      record {
        term = s.context.current_term;
        address = s.options.local;
        prev_log_index = prev_log_index;
        prev_log_term =
            if prev_log_index == 0
            then 0
            else elim (get_entry s.log prev_log_index) [ none ↦ 0 | some entry ↦ entry.term ];
        leader_commit = s.context.commit_index;
        entries =
            collect s.options.append_entries_count_once (suc s.log.last_log_index - p.next_index)
              s.log p.next_index [];
      }

  -- `AppendEntriesRPC` up to the call: nothing is sent if there is nothing new and the last message
  -- is not old enough.
  unfoldable pub send_append : ℕ → FloydImpl → Peer → Option (AppendEntries × Peer)
  unfolding append_request
  send_append now s p =
      if ltb s.log.last_log_index p.next_index
        && ltb now (size_add p.peer_last_op_time s.options.heartbeat_us)
      then none
      else some (append_request s p, record p { peer_last_op_time = now })

-- The term of the last entry that was sent.
abbrev pub last_sent : List Entry → ℕ
last_sent [] = 0
last_sent (entry ∷ []) = entry.term
last_sent (entry ∷ next ∷ entries) = last_sent (next ∷ entries)

-- The entries have arrived: the indices move on, and the commit index with them if the last entry
-- is of the current term. `others` are the match indices of the other peers; they are sorted, so
-- their order does not matter.
unfoldable pub accepted : AppendEntries → List ℕ → FloydImpl → Peer → Option (Peer × FloydImpl)
unfolding advance_leader_commit_index
accepted r others s p =
    let num_entries = length r.entries in
    if ltb 0 num_entries
    then (let p' : Peer = record p {
      match_index = size_add r.prev_log_index num_entries;
      next_index = size_add (size_add r.prev_log_index num_entries) 1;
    } in
        if last_sent r.entries == s.context.current_term
        then (do
          s' ← advance_leader_commit_index (p'.match_index ∷ others) s
          some (p', record s' { applies = suc s'.applies }))
        else some (p', s))
    else some (p, s)

-- The entries were refused: the next ones start further back. The Boolean tells whether another
-- task is added.
unfoldable pub refused : AppendEntriesResponse → Peer → Bool × Peer
refused res p =
    let adjust_index = min (size_add res.last_log_index 1) (size_sub p.next_index 1) in
    if ltb 0 adjust_index then (true, record p { next_index = adjust_index }) else (false, p)

-- What `AppendEntriesRPC` makes of the answer.
unfoldable pub receive_append :
    AppendEntries
    → AppendEntriesResponse
    → List ℕ
    → FloydImpl
    → Peer
    → Option (Bool × Peer × FloydImpl)
receive_append r res others s p = elim s.context.role [
  | leader ↦
      if ltb s.context.current_term res.term
      then some (false, p, store_term_and_vote (with_context (become_follower res.term nobody) s))
      else (if res.success
          then (do (p', s') ← accepted r others s p; some (false, p', s'))
          else (let (again, p') = refused res p in some (again, p', s)))
  | follower ↦ some (false, p, s)
  | candidate ↦ some (false, p, s)
]
