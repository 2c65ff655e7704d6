-- ===== src/Raft/Append/Steps.antt =====
-- The parts of `ReplyAppendEntries` of floyd/src/floyd_impl.cc behind the truncation.
use moxie_simple.Base.{
  ℕ, zero, suc, ◌+◌, ◌-◌, ◌<◌, ◌≤◌, ◌≡◌, refl, sym, ap, ◌∙◌, List, [], ◌∷◌, ◌++◌, append-nil, Bool,
  true, false, not, some, arith, ltb, leb, ◌==◌, if◌then◌else◌, length, length-take, take,
  get_elem?, take-take_le, subst, size_mod, Bool-cases, ℕ_discrete, inl, inr, ltb→lt, ltb→ge, eq→==,
  ne→==,
}
use moxie_simple.Raft.{Entry, AppendEntries}
use moxie_simple.Raft.Log.{RaftLog, append, get_entry}
use moxie_simple.Raft.Log.Contents.{Holds, append-Holds, truncate_suffix-Holds, get_elem?-take_lt}
use moxie_simple.Raft.Node.{FloydImpl, store_commit, with_context}
use moxie_simple.Raft.Append.{
  with_log, advance_follower_commit_index, commit, append_new, prev_term, match_prev,
}
use moxie_simple.Raft.Append.Expected.{term_at, both, Replied, respond-Replied}

pub commit-Replied :
    (r : AppendEntries) (s : FloydImpl) (entries : List Entry)
    → Holds s.log entries
    → Replied (some (commit r s)) s.context.current_term (true, entries)
unfolding commit advance_follower_commit_index store_commit with_context
commit-Replied r s entries h = elim (Bool-cases (r.leader_commit == s.context.commit_index)) [
  | inl same ↦ rw (commit, same) (respond-Replied true s entries h)
  | inr other ↦
      let s' = advance_follower_commit_index r.leader_commit s in
      rw (commit, other) (respond-Replied true (record s' { applies = suc s'.applies }) entries h)
]

append_new-Replied :
    (r : AppendEntries) (s : FloydImpl) (entries : List Entry)
    → Holds s.log entries
    → length entries + length r.entries < size_mod
    → Replied (some (append_new true r s)) s.context.current_term (true, entries ++ r.entries)
unfolding append_new with_log commit
append_new-Replied r s entries h room = elim (Bool-cases (ltb 0 (length r.entries))) [
  | inl some_new ↦
      let (h', index) = append-Holds s.log entries r.entries h room in
      let some_index : leb (append true r.entries s.log).0 0 ≡ false =
        ground (arith, index, ltb→lt 0 (length r.entries) some_new) in
      rw (append_new, some_new, some_index)
        (commit-Replied r (with_log (append true r.entries s.log).1 s) (entries ++ r.entries) h')
  | inr no_new ↦
      let nothing : r.entries ≡ [] = nil r.entries (ltb→ge 0 (length r.entries) no_new) in
      rw (append_new, no_new) (rw (nothing, append-nil entries) (commit-Replied r s entries h))
]
  where
    nil : (xs : List Entry) → length xs ≤ 0 → xs ≡ []
    nil [] h = refl
    nil (x ∷ xs) h = absurd (omega arith)

term_at_entry :
    (i : ℕ) (entries : List Entry)
    → i < length entries
    → (e : Entry) × (get_elem? entries i ≡ some e) × (term_at (suc i) entries ≡ some e.term)
term_at_entry i [] small = absurd (omega arith)
term_at_entry zero (entry ∷ entries) small = (entry, refl, refl)
term_at_entry (suc i) (entry ∷ entries) small = term_at_entry i entries (omega arith)

-- The previous entry is there, in the log that has been cut behind it.
pub prev_term-at :
    (r : AppendEntries) (log : RaftLog) (entries : List Entry)
    → Holds log (take r.prev_log_index entries)
    → r.prev_log_index ≤ length entries
    → (term : ℕ) × (prev_term r log ≡ some term) × (term_at r.prev_log_index entries ≡ some term)
unfolding prev_term get_entry
prev_term-at r log entries h reach = elim (ℕ_discrete r.prev_log_index 0) [
  | yes first ↦ (0, rw (eq→== _ _ first) refl, ap (λ i. term_at i entries) first)
  | no later ↦
      let i = r.prev_log_index - 1 in
      let next : r.prev_log_index ≡ suc i = omega (arith, later) in
      let (e, there, term) = term_at_entry i entries (omega (arith, reach, later)) in
      let found : log.db r.prev_log_index ≡ some e =
        ap log.db next
        ∙ h.entry_at i (omega (arith, reach, later, length-take r.prev_log_index entries))
        ∙ get_elem?-take_lt entries r.prev_log_index i (omega (arith, later))
        ∙ there in
      (e.term, rw (ne→== _ _ later, prev_term, found) refl, ap (λ i. term_at i entries) next ∙ term)
]

take-take_pred :
    (n : ℕ) (entries : List Entry) → take (n - 1) (take n entries) ≡ take (n - 1) entries
take-take_pred n entries = take-take_le (n - 1) n entries (omega arith)

-- The answer to entries that the follower's log reaches.
abbrev pub reached : AppendEntries → List Entry → ℕ → Bool × List Entry
reached r entries term =
    if not (r.prev_log_term == term)
    then (false, take (r.prev_log_index - 1) entries)
    else (true, take r.prev_log_index entries ++ r.entries)

pub match_prev-Replied :
    (r : AppendEntries) (s : FloydImpl) (entries : List Entry)
    → Holds s.log (take r.prev_log_index entries)
    → r.prev_log_index ≤ length entries
    → length entries + length r.entries < size_mod
    → (r.prev_log_index ≡ 0 → r.prev_log_term ≡ 0)
    → (term : ℕ) × (term_at r.prev_log_index entries ≡ some term)
      × Replied (match_prev both r s) s.context.current_term (reached r entries term)
unfolding match_prev with_log
match_prev-Replied r s entries h reach room start =
    let (term, found, same) = prev_term-at r s.log entries h reach in
    (
      term,
      same,
      elim (Bool-cases (r.prev_log_term == term)) [
        | inl agree ↦
            rw (match_prev, found, agree)
              (append_new-Replied r s (take r.prev_log_index entries) h
                (omega (arith, room, length-take r.prev_log_index entries)))
        | inr differ ↦
            let later : 0 < r.prev_log_index = positive term same differ in
            let (log', cut, h') =
              truncate_suffix-Holds s.log (take r.prev_log_index entries) r.prev_log_index h later
                (omega (arith, reach, length-take r.prev_log_index entries)) in
            rw (match_prev, found, differ, cut)
              (respond-Replied false (with_log log' s) (take (r.prev_log_index - 1) entries)
                (subst (Holds log') (take-take_pred r.prev_log_index entries) h'))
      ],
    )
  where
    positive :
        (term : ℕ)
        → term_at r.prev_log_index entries ≡ some term
        → (r.prev_log_term == term) ≡ false
        → 0 < r.prev_log_index
    positive term same differ = elim (ℕ_discrete r.prev_log_index 0) [
      | yes first ↦
          let zero_term : some 0 ≡ some term = sym (ap (λ i. term_at i entries) first) ∙ same in
          let none_before = start first in let t : 0 ≡ term = cc in ground arith
      | no later ↦ omega (arith, later)
    ]
