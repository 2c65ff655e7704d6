-- ===== src/Raft/Peer/Progress.antt =====
-- How a leader moves its commit index and the indices of a peer, in floyd/src/floyd_peer_thread.cc.
use moxie_simple.Base.{
  ℕ, ◌+◌, ◌*◌, ◌<◌, ◌≤◌, ◌≡◌, ◌⊎◌, refl, List, some, arith, ltb, length, inl, inr, ltb→lt,
  Bool-cases,
}
use moxie_simple.Raft.Node.{FloydImpl, store_commit, with_context}
use moxie_simple.Raft.Peer.{Peer, advance_leader_commit_index}
use moxie_simple.Raft.Peer.Quorum.{reaching, quorum_match_index-majority}

-- The new commit index is one that a majority has.
abbrev IsMajority : ℕ → List ℕ → Type 0
IsMajority i values = length values + 1 < 2 * (reaching i values + 1)

pub advance_leader_commit_index-cases :
    (values : List ℕ) (s : FloydImpl)
    → 4 ≤ length values
    → (s' : FloydImpl) × (advance_leader_commit_index values s ≡ some s')
      × ((s'.context.commit_index ≡ s.context.commit_index)
          ⊎ ((s.context.commit_index < s'.context.commit_index)
              × IsMajority s'.context.commit_index values))
unfolding advance_leader_commit_index store_commit with_context
advance_leader_commit_index-cases values s four =
    let (q, found, most) = quorum_match_index-majority values four in
    elim (Bool-cases (ltb s.context.commit_index q)) [
      | inl further ↦ (
        store_commit (with_context (λ c. record c { commit_index = q }) s),
        rw (advance_leader_commit_index, found, further) refl,
        inr (ltb→lt s.context.commit_index q further, (most q).0 (omega arith)),
      )
      | inr no_further ↦ (s, rw (advance_leader_commit_index, found, no_further) refl, inl refl)
    ]
