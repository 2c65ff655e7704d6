-- ===== src/Raft/Start/Restarted.antt =====
-- What is left of the Redis store when a server of floyd/src is opened again.
use moxie_simple.Base.{
  ℕ, ◌<◌, ◌≤◌, ◌≡◌, refl, ap, sym, ◌∙◌, List, [], ◌∷◌, true, none, some, arith, leb, le→leb,
  Option-cases, inl, inr, length,
}
use moxie_simple.Raft.{Entry}
use moxie_simple.Raft.Log.Contents.{Holds}
use moxie_simple.Raft.Node.{recover_init, restart_node}
use moxie_simple.Raft.Server.{Database, Library, Server, add_new_peer, init_peers}
use moxie_simple.Raft.Apply.{apply_state_machine}
use moxie_simple.Raft.Apply.Redis.{AllRedis, committed, write_entries, apply_state_machine-IsRedis}
use moxie_simple.Raft.Start.{record_members, recover_members, init}
use moxie_simple.Store.{new}

-- The members are recovered without a look at the node or the store.
abbrev IsSame : {D : Type 0} → Server D → Server D → Type 0
IsSame s s' = (s'.node ≡ s.node) × (s'.cached ≡ s.cached)

module _ {D : Type 0} (rocks : Database D) (lib : Library) where
  add_new_peer-IsSame : (m : List ℕ) (s : Server D) → IsSame s (add_new_peer lib m s)
  unfolding add_new_peer
  add_new_peer-IsSame m s = ground arith

  init_peers-IsSame : (ms : List (List ℕ)) (s : Server D) → IsSame s (init_peers lib ms s)
  unfolding init_peers
  init_peers-IsSame [] s = (refl, refl)
  init_peers-IsSame (m ∷ ms) s =
      let (node, cached) = init_peers-IsSame ms (add_new_peer lib m s) in
      let (node', cached') = add_new_peer-IsSame m s in (node ∙ node', cached ∙ cached')

  record_members-IsSame :
      (ms : List (List ℕ)) (s s' : Server D) → record_members rocks lib ms s ≡ some s' → IsSame s s'
  unfolding record_members
  record_members-IsSame ms s s' e = ground arith

  recover_members-IsSame :
      (ms : List (List ℕ)) (s s' : Server D)
      → recover_members rocks lib ms s ≡ some s'
      → IsSame s s'
  unfolding recover_members
  recover_members-IsSame ms s s' e = ground (arith, record_members-IsSame ms s s')

  opened :
      (ms : List (List ℕ)) (s s' : Server D)
      → init rocks lib ms s ≡ some s'
      → (s'.node ≡ restart_node s.node) × (s'.cached ≡ new)
  unfolding init
  opened ms s s' e =
      let empty : Server D = record s {
        node = restart_node s.node;
        cached = new;
        members = [];
        peers = [];
      } in
      elim (Option-cases (recover_members rocks lib ms empty)) [
        | inl gone ↦ absurd (let stuck : none ≡ some s' = sym (rw (init, gone) refl) ∙ e in cc)
        | inr (s₁, found) ↦
            let end : some (init_peers lib s₁.members s₁) ≡ some s' =
              sym (rw (init, found) refl) ∙ e in
            let same : init_peers lib s₁.members s₁ ≡ s' = cc in
            let (node, cached) = recover_members-IsSame ms empty s₁ found in
            let (node', cached') = init_peers-IsSame s₁.members s₁ in
            (
              sym (ap (λ s. s.node) same) ∙ node' ∙ node,
              sym (ap (λ s. s.cached) same) ∙ cached' ∙ cached,
            )
      ]

  -- The Redis store does not outlive the process. A server applies the committed Redis commands of
  -- its log to its store; when it is opened again the store is empty, the commands count as
  -- applied, and `ApplyStateMachine` applies none of them. The commit index is stored whenever it
  -- changes.
  pub init-loses :
      (now now' : ℕ → ℕ) (ms : List (List ℕ)) (s s₁ s₂ : Server D) (entries : List Entry)
      → Holds s.node.log entries
      → s.node.context.last_applied < s.node.context.commit_index
      → s.node.context.commit_index ≤ length entries
      → s.node.meta.commit_index ≡ s.node.context.commit_index
      → AllRedis (committed s entries)
      → apply_state_machine rocks lib now s ≡ some s₁
      → init rocks lib ms s₁ ≡ some s₂
      → (s₁.cached ≡ write_entries (committed s entries) s.cached)
        × (s₂.cached ≡ new)
        × (apply_state_machine rocks lib now' s₂ ≡ some s₂)
  unfolding apply_state_machine restart_node recover_init
  init-loses now now' ms s s₁ s₂ entries h behind reach stored redis e₁ e =
      let (t, applied, all, cached, last, noted, same, log, db) =
        apply_state_machine-IsRedis rocks lib now s entries h behind reach redis in
      let it : t ≡ s₁ = (let both : some t ≡ some s₁ = sym applied ∙ e₁ in cc) in
      let (node, empty) = opened ms s₁ s₂ e in
      let commit_index : s₂.node.context.commit_index ≡ t.node.meta.commit_index =
        ap (λ n. n.context.commit_index) node ∙ ap (λ s. s.node.meta.commit_index) (sym it) in
      let last_applied : s₂.node.context.last_applied ≡ t.node.meta.last_applied =
        ap (λ n. n.context.last_applied) node ∙ ap (λ s. s.node.meta.last_applied) (sym it) in
      let all_done : leb s₂.node.context.commit_index s₂.node.context.last_applied ≡ true =
        le→leb _ _ (omega (arith, commit_index, last_applied, noted, same, stored)) in
      (ap (λ s. s.cached) (sym it) ∙ cached, empty, rw (apply_state_machine, all_done) refl)
