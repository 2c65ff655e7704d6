-- ===== src/Raft/Peer/Collected.antt =====
-- The entries that `AppendEntriesRPC` of floyd/src/floyd_peer_thread.cc collects.
use moxie_simple.Base.{
  ℕ, zero, suc, ◌+◌, ◌≤◌, ◌≡◌, inl, inr, refl, sym, ap, ◌∙◌, List, [], ◌∷◌, ◌++◌, append-nil,
  append_assoc, ◌||◌, some, arith, leb, length, take, drop, get_elem?, Option-cases, Bool-cases,
}
use moxie_simple.Raft.{Entry}
use moxie_simple.Raft.Log.{RaftLog, get_entry}
use moxie_simple.Raft.Log.Contents.{Holds, get_entry_lem}
use moxie_simple.Raft.Peer.{collect}

drop_at :
    (entries : List Entry) (i : ℕ) (e : Entry)
    → get_elem? entries i ≡ some e
    → drop i entries ≡ e ∷ drop (suc i) entries
drop_at [] i e h = absurd cc
drop_at (x ∷ entries) zero e h = let same : x ≡ e = cc in ap (λ y. y ∷ entries) same
drop_at (x ∷ entries) (suc i) e h = drop_at entries i e h

module _ (byte_size : List Entry → ℕ) (size_once : ℕ) where
  -- They follow each other in the log.
  pub collect-Holds :
      (count_once fuel : ℕ) (log : RaftLog) (i : ℕ) (sent entries : List Entry)
      → Holds log entries
      → i + fuel ≤ length entries
      → (n : ℕ) × (collect byte_size size_once count_once fuel log (suc i) sent
          ≡ sent ++ take n (drop i entries))
  unfolding collect
  collect-Holds count_once zero log i sent entries h inside = (0, sym (append-nil sent))
  collect-Holds count_once (suc fuel) log i sent entries h inside =
      elim (Option-cases (get_entry log (suc i))) [
        | inl gone ↦ (0, rw (collect, gone) (sym (append-nil sent)))
        | inr (entry, there) ↦
            let at : drop i entries ≡ entry ∷ drop (suc i) entries =
              drop_at entries i entry (sym (get_entry_lem log entries i h (omega arith)) ∙ there) in
            let (n, more) =
              collect-Holds count_once fuel log (suc i) (sent ++ entry ∷ []) entries h
                (omega arith) in
            elim (Bool-cases (
              leb count_once (length (sent ++ entry ∷ []))
              || leb size_once (byte_size (sent ++ entry ∷ [])))) [
                | inl full ↦ (1, rw (collect, there, full, at) refl)
                | inr room ↦ (
                  suc n,
                  rw (collect, there, room, at)
                      (more ∙ append_assoc sent (entry ∷ []) (take n (drop (suc i) entries))),
                )
              ]
      ]
