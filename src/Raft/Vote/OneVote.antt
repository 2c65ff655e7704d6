-- ===== src/Raft/Vote/OneVote.antt =====
-- What `ReplyRequestVote` of floyd/src/floyd_impl.cc remembers, and whom it grants a vote.
use moxie_simple.Base.{
  ℕ, ◌≤◌, ◌≡◌, refl, sym, ap, ap₂, ◌∙◌, true, false, some, arith, ltb, ◌==◌, update, update_same,
  update_other, ℕ_discrete, Bool-cases, inl, inr, ◌⊎◌, ltb→lt, ltb→ge, eq→==, bytes_eq, bytes_eq-eq,
  bytes_eq_refl, ==_iff,
}
use moxie_simple.Raft.{Address, same_address, RequestVote}
use moxie_simple.Raft.Node.{
  FloydImpl, become_follower, store_term, store_term_and_vote, with_context,
}
use moxie_simple.Raft.Vote.{
  see_term, is_behind, has_voted, grant_vote, grant, answer, reply_request_vote,
}

pub same_address-eq : (a b : Address) → same_address a b ≡ true → a ≡ b
unfolding same_address
same_address-eq (ip, port) (ip', port') h =
    let ips : bytes_eq ip ip' ≡ true = ground arith in
    let ports : (port == port') ≡ true = ground arith in
    ap₂ (λ i p. (i, p)) (bytes_eq-eq ip ip' ips) ((==_iff port port').0 ports)

pub same_address_refl : (a : Address) → same_address a a ≡ true
unfolding same_address
same_address_refl (ip, port) = rw (bytes_eq_refl ip, eq→== port port refl) refl

pub see_term_lem :
    (term : ℕ) (s : FloydImpl)
    → ((see_term term s).vote_for ≡ s.vote_for)
      × ((see_term term s).log ≡ s.log)
      × (term ≤ (see_term term s).context.current_term)
      × (s.context.current_term ≤ (see_term term s).context.current_term)
unfolding see_term store_term with_context become_follower
see_term_lem term s = elim (Bool-cases (ltb s.context.current_term term)) [
  | inl larger ↦
      rw (see_term, larger)
        (refl, refl, omega arith, omega (arith, ltb→lt s.context.current_term term larger))
  | inr not_larger ↦
      rw (see_term, not_larger)
        (refl, refl, omega (arith, ltb→ge s.context.current_term term not_larger), omega arith)
]

-- The three tests that a candidate has to pass.
abbrev pub Granted : RequestVote → FloydImpl → Type 0
Granted r s =
    (ltb r.term (see_term r.term s).context.current_term ≡ false)
    × (is_behind r (see_term r.term s) ≡ false)
    × (has_voted r (see_term r.term s) ≡ false)

pub reply_request_vote-grants :
    (now : ℕ) (r : RequestVote) (s : FloydImpl)
    → Granted r s
    → reply_request_vote now r s ≡ answer true (grant now r (see_term r.term s))
unfolding reply_request_vote answer
reply_request_vote-grants now r s (new, level, free) =
    rw (reply_request_vote, new, level, free) refl

abbrev pub Refused : ℕ → RequestVote → FloydImpl → Type 0
Refused now r s =
    ((reply_request_vote now r s).0.vote_granted ≡ false)
    × ((reply_request_vote now r s).1 ≡ see_term r.term s)

pub reply_request_vote-cases :
    (now : ℕ) (r : RequestVote) (s : FloydImpl)
    → (Granted r s × (reply_request_vote now r s ≡ answer true (grant now r (see_term r.term s))))
      ⊎ Refused now r s
unfolding reply_request_vote answer
reply_request_vote-cases now r s =
    elim (Bool-cases (ltb r.term (see_term r.term s).context.current_term)) [
      | inl stale ↦ inr (rw (reply_request_vote, stale) (refl, refl))
      | inr new ↦ elim (Bool-cases (is_behind r (see_term r.term s))) [
        | inl behind ↦ inr (rw (reply_request_vote, new, behind) (refl, refl))
        | inr level ↦ elim (Bool-cases (has_voted r (see_term r.term s))) [
          | inl voted ↦ inr (rw (reply_request_vote, new, level, voted) (refl, refl))
          | inr free ↦
              inl ((new, level, free), reply_request_vote-grants now r s (new, level, free))
        ]
      ]
    ]

grant_lem :
    (now : ℕ) (r : RequestVote) (s : FloydImpl)
    → (grant now r s).vote_for ≡ update s.vote_for r.term (some r.address)
unfolding grant store_term_and_vote with_context become_follower grant_vote
grant_lem now r s = refl

pub voted_lem :
    (r : RequestVote) (s : FloydImpl) (a : Address)
    → has_voted r s ≡ false
    → s.vote_for r.term ≡ some a
    → same_address a r.address ≡ false
    → ⊥
unfolding has_voted
voted_lem r s a free h differ =
    let yes_it_has : has_voted r s ≡ true = rw (has_voted, h, differ) refl in cc

-- A vote that is remembered stays.
pub reply_request_vote-keeps :
    (now : ℕ) (r : RequestVote) (s : FloydImpl) (t : ℕ) (a : Address)
    → s.vote_for t ≡ some a
    → (reply_request_vote now r s).1.vote_for t ≡ some a
unfolding answer
reply_request_vote-keeps now r s t a h =
    let seen : (see_term r.term s).vote_for t ≡ some a =
      ap (λ m. m t) (see_term_lem r.term s).0 ∙ h in
    elim (reply_request_vote-cases now r s) [
      | inr (no_vote, same) ↦ ap (λ s. s.vote_for t) same ∙ seen
      | inl ((new, level, free), e) ↦
          ap (λ x. x.1.vote_for t) e
          ∙ ap (λ m. m t) (grant_lem now r (see_term r.term s))
          ∙ elim (ℕ_discrete t r.term) [
            | yes this ↦
                ap (update (see_term r.term s).vote_for r.term (some r.address)) this
                ∙ update_same (see_term r.term s).vote_for r.term (some r.address)
                ∙ ap some (
                    sym (
                      had r (see_term r.term s) a free
                        (ap (see_term r.term s).vote_for (sym this) ∙ seen)))
            | no other ↦
                update_other (see_term r.term s).vote_for r.term t (some r.address) other ∙ seen
          ]
    ]
  where
    had :
        (r : RequestVote) (s : FloydImpl) (a : Address)
        → has_voted r s ≡ false
        → s.vote_for r.term ≡ some a
        → a ≡ r.address
    had r s a free h = elim (Bool-cases (same_address a r.address)) [
      | inl same ↦ same_address-eq a r.address same
      | inr differ ↦ absurd (voted_lem r s a free h differ)
    ]

-- A vote that is granted is remembered.
pub reply_request_vote-remembers :
    (now : ℕ) (r : RequestVote) (s : FloydImpl)
    → (reply_request_vote now r s).0.vote_granted ≡ true
    → (reply_request_vote now r s).1.vote_for r.term ≡ some r.address
unfolding answer
reply_request_vote-remembers now r s granted = elim (reply_request_vote-cases now r s) [
  | inr (no_vote, same) ↦ absurd cc
  | inl (tests, e) ↦
      ap (λ x. x.1.vote_for r.term) e
      ∙ ap (λ m. m r.term) (grant_lem now r (see_term r.term s))
      ∙ update_same (see_term r.term s).vote_for r.term (some r.address)
]
