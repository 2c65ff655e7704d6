-- ===== src/Raft/Append/Replicated.antt =====
-- `ReplyAppendEntries` of floyd/src/floyd_impl.cc against the list of entries that the log holds.
use moxie_simple.Base.{
  ℕ, ◌-◌, ◌≡◌, refl, sym, List, ◌++◌, Bool, true, false, not, Option, none, some, arith, ltb, ◌==◌,
  if◌then◌else◌, ◌>>=◌, length, take, size_add, Bool-cases, inl, inr, ltb→ge, eq→==,
}
use moxie_simple.Raft.{Entry, AppendEntries, AppendEntriesResponse}
use moxie_simple.Raft.Log.{truncate_suffix}
use moxie_simple.Raft.Node.{FloydImpl, become_follower, store_term_and_vote, with_context}
use moxie_simple.Raft.Append.{is_waiting, follow, with_log, respond, match_prev}
use moxie_simple.Raft.Append.Expected.{term_at, both}

pub follow_lem :
    (r : AppendEntries) (s : FloydImpl)
    → ltb r.term s.context.current_term ≡ false
    → ((follow r s).log ≡ s.log) × ((follow r s).context.current_term ≡ r.term)
unfolding follow store_term_and_vote with_context become_follower
follow_lem r s new = elim (Bool-cases (ltb s.context.current_term r.term)) [
  | inl larger ↦ rw (follow, larger) (refl, refl)
  | inr no_larger ↦
      let same : s.context.current_term ≡ r.term = omega (
        arith,
        ltb→ge r.term s.context.current_term new,
        ltb→ge s.context.current_term r.term no_larger,
      ) in
      elim (Bool-cases (is_waiting s.context)) [
        | inl waits ↦
            rw (follow, no_larger, eq→== r.term s.context.current_term (sym same), waits)
              (refl, refl)
        | inr serves ↦
            rw (follow, no_larger, eq→== r.term s.context.current_term (sym same), serves)
              (refl, same)
      ]
]

pub touched :
    (now : ℕ) (s : FloydImpl)
    → let s₀ = with_context (λ c. record c { last_op_time = now }) s in
      (s₀.context.current_term ≡ s.context.current_term) × (s₀.log ≡ s.log)
unfolding with_context
touched now s = (refl, refl)

-- What comes behind the test of the term, in the code and on the list.
abbrev continue : AppendEntries → FloydImpl → Option (AppendEntriesResponse × FloydImpl)
continue r s =
    let s = follow r s in
    if ltb s.log.last_log_index r.prev_log_index then some (respond false s) else (do
      log ←
          (if ltb r.prev_log_index s.log.last_log_index
            then truncate_suffix true (size_add r.prev_log_index 1) s.log
            else some s.log)
      match_prev both r (with_log log s))

abbrev onwards : AppendEntries → List Entry → Bool × List Entry
onwards r entries =
    if ltb (length entries) r.prev_log_index
    then (false, entries)
    else elim (term_at r.prev_log_index entries) [
      | none ↦ (false, entries)
      | some term ↦
          if not (r.prev_log_term == term)
          then (false, take (r.prev_log_index - 1) entries)
          else (true, take r.prev_log_index entries ++ r.entries)
    ]
