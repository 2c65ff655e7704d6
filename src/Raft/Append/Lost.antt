-- ===== src/Raft/Append/Lost.antt =====
-- A follower whose database refuses a write, in `ReplyAppendEntries` of floyd/src/floyd_impl.cc.
use moxie_simple.Base.{
  ℕ, ◌+◌, ◌<◌, ◌≤◌, ◌≡◌, refl, ap, ◌∙◌, List, true, false, some, arith, ltb, leb, ◌==◌, length,
  take, take_all, size_mod, Bool-cases, inl, inr, ge→ltb, eq→==,
}
use moxie_simple.Raft.{Entry, AppendEntries, AppendEntriesResponse}
use moxie_simple.Raft.Log.Contents.{Holds, append-fails}
use moxie_simple.Raft.Node.{FloydImpl, store_commit, with_context}
use moxie_simple.Raft.Append.{
  Writes, follow, with_log, respond, advance_follower_commit_index, commit, append_new, match_prev,
  reply_append_entries,
}
use moxie_simple.Raft.Append.Expected.{term_at}
use moxie_simple.Raft.Append.Steps.{prev_term-at}
use moxie_simple.Raft.Append.Replicated.{follow_lem, touched}

-- `TruncateSuffix` can write, `Append` cannot.
abbrev pub append_fails : Writes
append_fails = record { truncated = true; removed = true; appended = false }

commit_lem :
    (r : AppendEntries) (s : FloydImpl)
    → ((commit r s).0.success ≡ true) × ((commit r s).1.log ≡ s.log)
unfolding commit advance_follower_commit_index store_commit with_context respond
commit_lem r s = elim (Bool-cases (r.leader_commit == s.context.commit_index)) [
  | inl same ↦ rw (commit, same) (refl, refl)
  | inr other ↦ rw (commit, other) (refl, refl)
]

append_new-lost :
    (r : AppendEntries) (s : FloydImpl) (entries : List Entry)
    → Holds s.log entries
    → length entries + length r.entries < size_mod
    → 0 < length entries
    → ((append_new false r s).0.success ≡ true) × ((append_new false r s).1.log ≡ s.log)
unfolding append_new with_log
append_new-lost r s entries h room some_entries = elim (Bool-cases (ltb 0 (length r.entries))) [
  | inr no_new ↦ rw (append_new, no_new) (commit_lem r s)
  | inl some_new ↦
      let some_index : leb (length entries) 0 ≡ false = ground arith in
      rw (append_new, some_new, append-fails s.log entries r.entries h room, some_index)
        (commit_lem r s)
]

-- If `Append` cannot write, a follower that reaches the message with a log that is not empty
-- answers with success all the same: `Append` returns the old last index, and only 0 is taken for a
-- failure. The log is as before, so that the leader counts a replica of entries that the follower
-- does not have.
pub reply_append_entries-lost :
    (now : ℕ) (r : AppendEntries) (s : FloydImpl) (entries : List Entry)
    → Holds s.log entries
    → length entries + length r.entries < size_mod
    → 0 < length entries
    → s.context.current_term ≤ r.term
    → r.prev_log_index ≡ length entries
    → term_at r.prev_log_index entries ≡ some r.prev_log_term
    → (response : AppendEntriesResponse) × (s' : FloydImpl) × (reply_append_entries append_fails now
          r s
        ≡ some (response, s'))
      × (response.success ≡ true)
      × (s'.log ≡ s.log)
unfolding reply_append_entries match_prev with_log
reply_append_entries-lost now r s entries h room some_entries new reach matches =
    let s₀ : FloydImpl = with_context (λ c. record c { last_op_time = now }) s in
    let (same, log₀) = touched now s in
    let new₀ : ltb r.term s₀.context.current_term ≡ false =
      ap (ltb r.term) same ∙ ge→ltb r.term s.context.current_term new in
    let s₁ = follow r s₀ in
    let same_log : s₁.log ≡ s.log = (follow_lem r s₀ new₀).0 ∙ log₀ in
    let h₁ : Holds s₁.log entries = rw same_log h in
    let h₂ : Holds s₁.log (take r.prev_log_index entries) =
      rw (take_all r.prev_log_index entries (omega (arith, reach))) h₁ in
    let near : ltb s₁.log.last_log_index r.prev_log_index ≡ false =
      ge→ltb s₁.log.last_log_index r.prev_log_index (omega (arith, h₁.last, reach)) in
    let whole : ltb r.prev_log_index s₁.log.last_log_index ≡ false =
      ge→ltb r.prev_log_index s₁.log.last_log_index (omega (arith, h₁.last, reach)) in
    let (term, found, at) = prev_term-at r s₁.log entries h₂ (omega (arith, reach)) in
    let agree : (r.prev_log_term == term) ≡ true = eq→== r.prev_log_term term cc in
    let (yes_it_says, unchanged) = append_new-lost r s₁ entries h₁ room some_entries in
    (
      (append_new false r s₁).0,
      (append_new false r s₁).1,
      rw (reply_append_entries, new₀, near, whole, match_prev, found, agree) refl,
      yes_it_says,
      unchanged ∙ same_log,
    )
