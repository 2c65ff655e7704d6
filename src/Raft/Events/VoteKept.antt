-- ===== src/Raft/Events/VoteKept.antt =====
-- `vote_for_` of floyd/src/floyd_impl.h, over the calls that a running node gets.
use moxie_simple.Base.{
  ℕ, zero, suc, ◌-◌, Option-cases, ◌≡◌, refl, sym, ap, ◌∙◌, List, Bool, true, false, Option, none,
  some, arith, ltb, if◌then◌else◌, ◌>>=◌, Bool-cases, inl, inr, size_add,
}
use moxie_simple.Raft.{
  Address, Entry, RequestVote, RequestVoteResponse, AppendEntries, AppendEntriesResponse,
}
use moxie_simple.Raft.Log.{RaftLog, append, truncate_suffix}
use moxie_simple.Raft.Node.{
  FloydImpl, become_follower, become_candidate, become_leader, store_term_and_vote, store_commit,
  with_context,
}
use moxie_simple.Raft.Vote.{reply_request_vote, check_and_vote, receive_vote, start_election}
use moxie_simple.Raft.Vote.OneVote.{reply_request_vote-keeps, reply_request_vote-remembers}
use moxie_simple.Raft.Append.{
  Writes, follow, with_log, respond, advance_follower_commit_index, commit, append_new, match_prev,
  reply_append_entries,
}
use moxie_simple.Raft.Peer.{Peer, accepted, advance_leader_commit_index, receive_append}
use moxie_simple.Raft.Primary.{lead_alone}
use moxie_simple.Raft.Server.{
  Database, Library, Server, DbStatus, insert_name, erase_name, add_new_peer, remove_out_peer,
}
use moxie_simple.Raft.Apply.{
  apply_members, apply, apply_write, apply_delete, apply_try_lock, apply_unlock, put_lock,
  apply_loop, read_entry, no_entry, set_last_applied, apply_state_machine,
}
use moxie_simple.Raft.Execute.{launch_command}
use moxie_simple.Raft.Events.{
  Step, asked, voted, timed_out, led_alone, replicated, acknowledged, commanded, launched, applied,
  Reach, here, next,
}

receive_vote-vote_for :
    (res : RequestVoteResponse) (s : FloydImpl) → (receive_vote res s).1.vote_for ≡ s.vote_for
unfolding receive_vote store_term_and_vote with_context become_follower become_leader check_and_vote
receive_vote-vote_for res s = ground arith

follow-vote_for : (r : AppendEntries) (s : FloydImpl) → (follow r s).vote_for ≡ s.vote_for
unfolding follow store_term_and_vote with_context become_follower
follow-vote_for r s = ground arith

commit-vote_for : (r : AppendEntries) (s : FloydImpl) → (commit r s).1.vote_for ≡ s.vote_for
unfolding commit advance_follower_commit_index store_commit with_context respond
commit-vote_for r s = ground arith

append_new-vote_for :
    (b : Bool) (r : AppendEntries) (s : FloydImpl) → (append_new b r s).1.vote_for ≡ s.vote_for
unfolding append_new with_log respond
append_new-vote_for b r s =
    ground (arith, commit-vote_for r s, commit-vote_for r (with_log (append b r.entries s.log).1 s))

match_prev-vote_for :
    (w : Writes) (r : AppendEntries) (s s' : FloydImpl) (res : AppendEntriesResponse)
    → match_prev w r s ≡ some (res, s')
    → s'.vote_for ≡ s.vote_for
unfolding match_prev with_log respond
match_prev-vote_for w r s s' res e = ground (arith, append_new-vote_for w.appended r s)

accepted-vote_for :
    (r : AppendEntries) (others : List ℕ) (s s' : FloydImpl) (p p' : Peer)
    → accepted r others s p ≡ some (p', s')
    → s'.vote_for ≡ s.vote_for
unfolding accepted advance_leader_commit_index store_commit with_context
accepted-vote_for r others s s' p p' e = ground arith

after_cut-vote_for :
    (w : Writes) (r : AppendEntries) (s s' : FloydImpl) (res : AppendEntriesResponse)
    (cut : Option RaftLog)
    → (do log ← cut; match_prev w r (with_log log s)) ≡ some (res, s')
    → s'.vote_for ≡ s.vote_for
unfolding with_log
after_cut-vote_for w r s s' res none e = absurd cc
after_cut-vote_for w r s s' res (some log) e = match_prev-vote_for w r (with_log log s) s' res e

reply_append_entries-vote_for :
    (w : Writes) (now : ℕ) (r : AppendEntries) (s s' : FloydImpl) (res : AppendEntriesResponse)
    → reply_append_entries w now r s ≡ some (res, s')
    → s'.vote_for ≡ s.vote_for
unfolding reply_append_entries respond with_context
reply_append_entries-vote_for w now r s s' res e =
    let s₀ : FloydImpl = with_context (λ c. record c { last_op_time = now }) s in
    let s₁ = follow r s₀ in
    let followed : s₁.vote_for ≡ s.vote_for = follow-vote_for r s₀ in
    elim (Bool-cases (ltb r.term s.context.current_term)) [
      | inl stale ↦
          let done : some (respond false s₀) ≡ some (res, s') =
            sym (rw (reply_append_entries, stale) refl) ∙ e in
          cc
      | inr new ↦ elim (Bool-cases (ltb s₁.log.last_log_index r.prev_log_index)) [
        | inl far ↦
            let done : some (respond false s₁) ≡ some (res, s') =
              sym (rw (reply_append_entries, new, far) refl) ∙ e in
            (let e' : s₁.vote_for ≡ s'.vote_for = cc in cc)
        | inr near ↦
            after_cut-vote_for w r s₁ s' res
              (if ltb r.prev_log_index s₁.log.last_log_index
                then truncate_suffix w.truncated (size_add r.prev_log_index 1) s₁.log
                else some s₁.log)
              (sym (rw (reply_append_entries, new, near) refl) ∙ e)
            ∙ followed
      ]
    ]

receive_append-vote_for :
    (r : AppendEntries) (res : AppendEntriesResponse) (others : List ℕ) (s s' : FloydImpl)
    (p p' : Peer) (again : Bool)
    → receive_append r res others s p ≡ some (again, p', s')
    → s'.vote_for ≡ s.vote_for
unfolding receive_append store_term_and_vote with_context become_follower
receive_append-vote_for r res others s s' p p' again e =
    ground (arith, accepted-vote_for r others s s' p p')

-- Applying an entry leaves the node alone.
module _ {D : Type 0} (rocks : Database D) (lib : Library) where
  apply_members-node :
      (add : Bool) (e : Entry) (s s' : Server D) (ret : DbStatus)
      → apply_members rocks lib add e s ≡ some (ret, s')
      → s'.node ≡ s.node
  unfolding apply_members insert_name erase_name add_new_peer remove_out_peer
  apply_members-node add e s s' ret h = ground arith

  apply-node :
      (now : ℕ) (e : Entry) (s s' : Server D) (ret : DbStatus)
      → apply rocks lib now e s ≡ some (ret, s')
      → s'.node ≡ s.node
  unfolding apply apply_write apply_delete apply_try_lock apply_unlock put_lock
  apply-node now e s s' ret h =
      ground (arith, apply_members-node true e s s' ret, apply_members-node false e s s' ret)

  apply_loop-node :
      (now : ℕ → ℕ) (fuel last : ℕ) (e : Entry) (s s' : Server D) (all : Bool)
      → apply_loop rocks lib now fuel last e s ≡ some (all, s')
      → s'.node ≡ s.node
  unfolding apply_loop
  apply_loop-node now zero last e s s' all h = cc
  apply_loop-node now (suc fuel) last e s s' all h =
      let e' = read_entry (suc last) e s.node.log in
      elim (Option-cases (apply rocks lib (now (suc last)) e' s)) [
        | inl gone ↦ ground (arith, gone)
        | inr ((ret, s₁), ran) ↦
            let first = apply-node (now (suc last)) e' s s₁ ret ran in
            ground (arith, ran, first, apply_loop-node now fuel (suc last) e' s₁ s' all)
      ]

  apply_state_machine-vote_for :
      (now : ℕ → ℕ) (s s' : Server D)
      → apply_state_machine rocks lib now s ≡ some s'
      → s'.node.vote_for ≡ s.node.vote_for
  unfolding apply_state_machine set_last_applied with_context
  apply_state_machine-vote_for now s s' h =
      let last = s.node.context.last_applied in
      let fuel = s.node.context.commit_index - last in
      elim (Option-cases (apply_loop rocks lib now fuel last no_entry s)) [
        | inl gone ↦ ground (arith, gone)
        | inr ((all, s₁), ran) ↦
            let kept = ap (λ n. n.vote_for) (apply_loop-node now fuel last no_entry s s₁ all ran) in
            ground (arith, ran, kept)
      ]

Step-keeps :
    {D : Type 0} {rocks : Database D} {lib : Library} {s s' : FloydImpl} (t : ℕ) (a : Address)
    → Step rocks lib s s'
    → s.vote_for t ≡ some a
    → s'.vote_for t ≡ some a
unfolding start_election store_term_and_vote with_context become_candidate lead_alone become_leader
    launch_command store_commit
Step-keeps {s = s} t a (asked now r) h = reply_request_vote-keeps now r s t a h
Step-keeps {s = s} t a (voted res) h = ap (λ m. m t) (receive_vote-vote_for res s) ∙ h
Step-keeps t a timed_out h = h
Step-keeps t a led_alone h = h
Step-keeps t a (commanded written entries) h = h
Step-keeps t a (launched index server same) h = ground (arith, h, same)
Step-keeps {rocks = rocks} {lib = lib} t a (applied now server server' same e) h =
    ap (λ m. m t) (apply_state_machine-vote_for rocks lib now server server' e)
    ∙ ap (λ n. n.vote_for t) same
    ∙ h
Step-keeps {s = s} {s' = s'} t a (replicated w now r res e) h =
    ap (λ m. m t) (reply_append_entries-vote_for w now r s s' res e) ∙ h
Step-keeps {s = s} {s' = s'} t a (acknowledged r res others p p' again e) h =
    ap (λ m. m t) (receive_append-vote_for r res others s s' p p' again e) ∙ h

Reach-keeps :
    {D : Type 0} {rocks : Database D} {lib : Library} {s s' : FloydImpl} (t : ℕ) (a : Address)
    → Reach rocks lib s s'
    → s.vote_for t ≡ some a
    → s'.vote_for t ≡ some a
Reach-keeps t a here h = h
Reach-keeps t a (next way step) h = Step-keeps t a step (Reach-keeps t a way h)

-- As long as a node runs, two votes that `ReplyRequestVote` grants for the same term go to the same
-- address, whichever of the events of `Step` there are between them, as many as there may be.
pub reply_request_vote-same_address :
    {D : Type 0} (rocks : Database D) (lib : Library) (now now' : ℕ) (r r' : RequestVote)
    (s s' : FloydImpl)
    → (reply_request_vote now r s).0.vote_granted ≡ true
    → Reach rocks lib (reply_request_vote now r s).1 s'
    → (reply_request_vote now' r' s').0.vote_granted ≡ true
    → r.term ≡ r'.term
    → r.address ≡ r'.address
reply_request_vote-same_address rocks lib now now' r r' s s' granted way granted' term =
    let first : (reply_request_vote now' r' s').1.vote_for r.term ≡ some r.address =
      reply_request_vote-keeps now' r' s' r.term r.address
        (Reach-keeps r.term r.address way (reply_request_vote-remembers now r s granted)) in
    let second = reply_request_vote-remembers now' r' s' granted' in cc
