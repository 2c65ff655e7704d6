-- ===== src/Raft/Append/Expected.antt =====
-- What `ReplyAppendEntries` of floyd/src/floyd_impl.cc makes of a list of entries.
use moxie_simple.Base.{
  ℕ, zero, suc, ◌-◌, ◌≡◌, refl, List, [], ◌∷◌, ◌++◌, Bool, true, false, not, Option, none, some,
  ltb, ◌==◌, if◌then◌else◌, length, take,
}
use moxie_simple.Raft.{Entry, AppendEntries, AppendEntriesResponse}
use moxie_simple.Raft.Log.Contents.{Holds}
use moxie_simple.Raft.Node.{FloydImpl}
use moxie_simple.Raft.Append.{Writes, respond}

-- The term of the entry with an index, and 0 before the first.
abbrev pub term_at : ℕ → List Entry → Option ℕ
term_at zero entries = some 0
term_at (suc i) [] = none
term_at (suc zero) (entry ∷ entries) = some entry.term
term_at (suc (suc i)) (entry ∷ entries) = term_at (suc i) entries

-- What a follower in a term makes of its entries: they have to reach to the previous entry of the
-- message, with its term. Then the new entries take the place of all that follows.
unfoldable pub replicate_entries : ℕ → AppendEntries → List Entry → Bool × List Entry
replicate_entries current_term r entries =
    if ltb r.term current_term
    then (false, entries)
    else (if ltb (length entries) r.prev_log_index
        then (false, entries)
        else elim (term_at r.prev_log_index entries) [
          | none ↦ (false, entries)
          | some term ↦
              if not (r.prev_log_term == term)
              then (false, take (r.prev_log_index - 1) entries)
              else (true, take r.prev_log_index entries ++ r.entries)
        ])

abbrev pub both : Writes
both = record { truncated = true; removed = true; appended = true }

-- The answer and the node agree with a result of `replicate_entries`.
pub record Replied (r : Option (AppendEntriesResponse × FloydImpl)) (term : ℕ)
    (expected : Bool × List Entry) : Type 0 where
  pub response : AppendEntriesResponse
  pub node : FloydImpl
  pub returned : r ≡ some (response, node)
  pub success : response.success ≡ expected.0
  pub holds : Holds node.log expected.1
  pub told_index : response.last_log_index ≡ length expected.1
  pub told_term : response.term ≡ term
  pub same_term : node.context.current_term ≡ term

pub respond-Replied :
    (b : Bool) (s : FloydImpl) (entries : List Entry)
    → Holds s.log entries
    → Replied (some (respond b s)) s.context.current_term (b, entries)
unfolding respond
respond-Replied b s entries h = record {
  response = record {
    term = s.context.current_term;
    success = b;
    last_log_index = s.log.last_log_index;
  };
  node = s;
  returned = refl;
  success = refl;
  holds = h;
  told_index = h.last;
  told_term = refl;
  same_term = refl;
}
