-- ===== src/Raft/Vote/Granting.antt =====
-- When `ReplyRequestVote` of floyd/src/floyd_impl.cc grants a vote.
use moxie_simple.Base.{
  ℕ, ◌<◌, ◌≤◌, ◌≡◌, ◌↔◌, ◌⊎◌, refl, ap, List, true, false, some, arith, ltb, length, Bool-cases,
  inl, inr, Option-cases, subst,
}
use moxie_simple.Raft.{Entry, Address, same_address, RequestVote}
use moxie_simple.Raft.Log.Contents.{Holds, last_term, get_last_log_term_and_index_lem}
use moxie_simple.Raft.Node.{FloydImpl, become_follower, store_term, with_context}
use moxie_simple.Raft.Vote.{see_term, is_behind, has_voted, answer, reply_request_vote}
use moxie_simple.Raft.Vote.OneVote.{
  see_term_lem, reply_request_vote-cases, reply_request_vote-grants, same_address-eq,
  same_address_refl, voted_lem,
}

-- The log of the candidate goes at least as far as a list of entries.
abbrev pub UpToDate : RequestVote → List Entry → Type 0
UpToDate r entries =
    (last_term entries < r.last_log_term)
    ⊎ ((last_term entries ≡ r.last_log_term) × (length entries ≤ r.last_log_index))

-- `vote_for_` has no other address for that term.
abbrev pub IsFree : RequestVote → FloydImpl → Type 0
IsFree r s = (a : Address) → s.vote_for r.term ≡ some a → a ≡ r.address

is_behind_lem :
    (r : RequestVote) (s : FloydImpl) (entries : List Entry)
    → Holds s.log entries
    → (is_behind r s ≡ false) ↔ UpToDate r entries
unfolding is_behind
is_behind_lem r s entries h =
    let last = get_last_log_term_and_index_lem s.log entries h in
    rw (is_behind, last) (λ e. ground arith, λ e. ground arith)

has_voted_lem : (r : RequestVote) (s : FloydImpl) → (has_voted r s ≡ false) ↔ IsFree r s
unfolding has_voted
has_voted_lem r s = (
  λ free a voted. (elim (Bool-cases (same_address a r.address)) [
    | inl same ↦ same_address-eq a r.address same
    | inr differ ↦ absurd (voted_lem r s a free voted differ)
  ]),
  λ free. (elim (Option-cases (s.vote_for r.term)) [
    | inl nobody_yet ↦ rw (has_voted, nobody_yet) refl
    | inr (a, voted) ↦
        let same : same_address a r.address ≡ true =
          rw (free a voted) (same_address_refl r.address) in
        rw (has_voted, voted, same) refl
  ]),
)

see_term_term :
    (r : RequestVote) (s : FloydImpl)
    → (ltb r.term (see_term r.term s).context.current_term ≡ false)
      ↔ (s.context.current_term ≤ r.term)
unfolding see_term store_term with_context become_follower
see_term_term r s = ground arith

pub reply_request_vote-granted :
    (now : ℕ) (r : RequestVote) (s : FloydImpl) (entries : List Entry)
    → Holds s.log entries
    → ((reply_request_vote now r s).0.vote_granted ≡ true)
      ↔ ((s.context.current_term ≤ r.term) × UpToDate r entries × IsFree r s)
unfolding answer
reply_request_vote-granted now r s entries h =
    let s' = see_term r.term s in
    let (same_votes, same_log, most, grown) = see_term_lem r.term s in
    let h' : Holds s'.log entries = rw same_log h in
    let level = is_behind_lem r s' entries h' in
    let free : (has_voted r s' ≡ false) ↔ IsFree r s =
      subst (λ m. (has_voted r s' ≡ false) ↔ ((a : Address) → m r.term ≡ some a → a ≡ r.address))
        same_votes (has_voted_lem r s') in
    let new = see_term_term r s in
    (
      λ granted. (elim (reply_request_vote-cases now r s) [
        | inl ((a, b, c), e) ↦ (new.0 a, level.0 b, free.0 c)
        | inr (denied, same) ↦ absurd cc
      ]),
      λ (a, b, c).
          (ap (λ x. x.0.vote_granted)
            (reply_request_vote-grants now r s (new.1 a, level.1 b, free.1 c))),
    )
