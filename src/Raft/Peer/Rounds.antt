-- ===== src/Raft/Peer/Rounds.antt =====
-- A leader and a follower that exchange AppendEntries and its answers:
-- floyd/src/floyd_peer_thread.cc with `ReplyAppendEntries` of floyd/src/floyd_impl.cc.
use moxie_simple.Base.{
  ℕ, zero, suc, ◌+◌, ◌-◌, ◌<◌, ◌≤◌, ◌≡◌, ◌⊎◌, inl, inr, refl, sym, ap, ◌∙◌, List, [], ◌∷◌, ◌++◌,
  Bool, true, false, not, Option, none, some, arith, ltb, leb, ◌==◌, if◌then◌else◌, length,
  length-append, take, take_all, drop, min, ◌>>=◌, ◌||◌, size_add, size_sub, size_mod, size_add_lem,
  size_sub_lem, Bool-cases, Option-cases, ltb→lt, ltb→ge, ge→ltb, lt→ltb, eq→==, ℕ_discrete,
}
use moxie_simple.Raft.{Entry, AppendEntries, AppendEntriesResponse}
use moxie_simple.Raft.Log.{RaftLog, get_entry}
use moxie_simple.Raft.Log.Contents.{Holds}
use moxie_simple.Raft.Node.{FloydImpl, leader}
use moxie_simple.Raft.Append.{reply_append_entries}
use moxie_simple.Raft.Append.Expected.{term_at, replicate_entries, both}
use moxie_simple.Raft.Peer.{
  Peer, collect, append_request, last_sent, accepted, refused, receive_append,
}
use moxie_simple.Raft.Peer.Collected.{collect-Holds}
use moxie_simple.Raft.Peer.Progress.{advance_leader_commit_index-cases}

-- What the follower's entries become: either the message goes on from some of them, or it is
-- refused and the follower keeps the first of them.
abbrev pub Fate : AppendEntries → List Entry → Bool × List Entry → Type 0
Fate r entries (success, entries') =
    ((success ≡ true)
      × (r.prev_log_index ≤ length entries)
      × (entries' ≡ take r.prev_log_index entries ++ r.entries))
    ⊎ ((success ≡ false) × (0 < r.prev_log_index) × (n : ℕ) × (entries' ≡ take n entries))

term_at_first : (i : ℕ) (entries : List Entry) → i ≡ 0 → term_at i entries ≡ some 0
term_at_first i entries first = ap (λ i. term_at i entries) first

reached-Fate :
    (r : AppendEntries) (entries : List Entry) (found : Option ℕ)
    → r.prev_log_index ≤ length entries
    → (r.prev_log_index ≡ 0 → r.prev_log_term ≡ 0)
    → term_at r.prev_log_index entries ≡ found
    → Fate r entries (elim found [
      | none ↦ (false, entries)
      | some term ↦
          if not (r.prev_log_term == term)
          then (false, take (r.prev_log_index - 1) entries)
          else (true, take r.prev_log_index entries ++ r.entries)
    ])
reached-Fate r entries none near start at = inr (
  refl,
  elim (ℕ_discrete r.prev_log_index 0) [
    | yes first ↦ absurd (let there = term_at_first r.prev_log_index entries first in cc)
    | no later ↦ omega (arith, later)
  ],
  length entries,
  sym (take_all (length entries) entries (omega arith)),
)
reached-Fate r entries (some term) near start at = elim (Bool-cases (r.prev_log_term == term)) [
  | inl agree ↦ rw agree (inl (refl, near, refl))
  | inr differ ↦ rw differ (
      inr (
        refl,
        elim (ℕ_discrete r.prev_log_index 0) [
          | yes first ↦ absurd (
              let there = term_at_first r.prev_log_index entries first in
              let none_before = start first in
              let same : 0 ≡ term = cc in
              let agree : (r.prev_log_term == term) ≡ true = eq→== _ _ (none_before ∙ same) in cc)
          | no later ↦ omega (arith, later)
        ],
        r.prev_log_index - 1,
        refl,
      ))
]

pub replicate_entries-Fate :
    (current_term : ℕ) (r : AppendEntries) (entries : List Entry)
    → current_term ≤ r.term
    → (r.prev_log_index ≡ 0 → r.prev_log_term ≡ 0)
    → Fate r entries (replicate_entries current_term r entries)
unfolding replicate_entries
replicate_entries-Fate current_term r entries new start =
    let new' = ge→ltb r.term current_term new in
    elim (Bool-cases (ltb (length entries) r.prev_log_index)) [
      | inl far ↦
          rw (replicate_entries, new', far)
            (inr (
              refl,
              omega (arith, ltb→lt (length entries) r.prev_log_index far),
              length entries,
              sym (take_all (length entries) entries (omega arith)),
            ))
      | inr near ↦
          rw (replicate_entries, new', near)
            (reached-Fate r entries (term_at r.prev_log_index entries)
              (ltb→ge (length entries) r.prev_log_index near) start refl)
    ]

-- A leader goes back after a refusal, and takes any other answer.
pub receive_append-backs :
    (r : AppendEntries) (res : AppendEntriesResponse) (others : List ℕ) (s : FloydImpl) (p : Peer)
    → s.context.role ≡ leader
    → res.term ≡ s.context.current_term
    → res.success ≡ false
    → 1 < p.next_index
    → p.next_index < size_mod
    → res.last_log_index + 1 < size_mod
    → receive_append r res others s p
      ≡ some (true, record p { next_index = min (res.last_log_index + 1) (p.next_index - 1) }, s)
unfolding receive_append refused
receive_append-backs r res others s p role term denied later fits room =
    let no_larger : ltb s.context.current_term res.term ≡ false =
      ge→ltb _ _ (omega (arith, term)) in
    let next : size_add res.last_log_index 1 ≡ res.last_log_index + 1 =
      omega (arith, room, size_add_lem res.last_log_index 1) in
    let back : size_sub p.next_index 1 ≡ p.next_index - 1 =
      omega (arith, later, fits, size_sub_lem p.next_index 1) in
    let some_left : ltb 0 (min (res.last_log_index + 1) (p.next_index - 1)) ≡ true =
      lt→ltb _ _ (omega (arith, later)) in
    simp (receive_append, role, no_larger, denied, next, back, some_left)

accepted-takes :
    (r : AppendEntries) (others : List ℕ) (s : FloydImpl) (p : Peer)
    → 3 ≤ length others
    → (p' : Peer) × (s' : FloydImpl) × (accepted r others s p ≡ some (p', s'))
unfolding accepted
accepted-takes r others s p four =
    let i = size_add r.prev_log_index (length r.entries) in
    let p₁ : Peer = record p { match_index = i; next_index = size_add i 1 } in
    let (s', moved, ways) = advance_leader_commit_index-cases (i ∷ others) s (omega arith) in
    elim (Bool-cases (ltb 0 (length r.entries))) [
      | inr no_new ↦ (p, s, rw (accepted, no_new) refl)
      | inl some_new ↦ elim (Bool-cases (last_sent r.entries == s.context.current_term)) [
        | inl this_term ↦ (
          p₁,
          record s' { applies = suc s'.applies },
          rw (accepted, some_new, this_term, moved) refl,
        )
        | inr older ↦ (p₁, s, rw (accepted, some_new, older) refl)
      ]
    ]

pub receive_append-takes :
    (r : AppendEntries) (res : AppendEntriesResponse) (others : List ℕ) (s : FloydImpl) (p : Peer)
    → 3 ≤ length others
    → s.context.role ≡ leader
    → res.term ≡ s.context.current_term
    → res.success ≡ true
    → (p' : Peer) × (s' : FloydImpl) × (receive_append r res others s p ≡ some (false, p', s'))
unfolding receive_append
receive_append-takes r res others s p four role term granted =
    let no_larger : ltb s.context.current_term res.term ≡ false =
      ge→ltb _ _ (omega (arith, term)) in
    let (p', s', taken) = accepted-takes r others s p four in
    (p', s', simp (receive_append, role, no_larger, granted, taken))

module _ (byte_size : List Entry → ℕ) (size_once : ℕ) where
  length-collect :
      (count_once fuel : ℕ) (log : RaftLog) (index : ℕ) (sent : List Entry)
      → length (collect byte_size size_once count_once fuel log index sent) ≤ length sent + fuel
  unfolding collect
  length-collect count_once zero log index sent = omega arith
  length-collect count_once (suc fuel) log index sent = elim (Option-cases (get_entry log index)) [
    | inl gone ↦ rw (collect, gone) (omega arith)
    | inr (entry, there) ↦
        let more = length-collect count_once fuel log (suc index) (sent ++ entry ∷ []) in
        let one = length-append sent (entry ∷ []) in
        elim (Bool-cases (
          leb count_once (length (sent ++ entry ∷ []))
          || leb size_once (byte_size (sent ++ entry ∷ [])))) [
            | inl full ↦ rw (collect, there, full) (omega (arith, one))
            | inr room ↦ rw (collect, there, room) (omega (arith, more, one))
          ]
  ]

  pub append_request_lem :
      (s : FloydImpl) (p : Peer)
      → 0 < p.next_index
      → p.next_index < size_mod
      → let r = append_request byte_size size_once s p in
        (r.prev_log_index ≡ p.next_index - 1)
        × (r.term ≡ s.context.current_term)
        × (r.prev_log_index ≡ 0 → r.prev_log_term ≡ 0)
        × (length r.entries ≤ suc s.log.last_log_index - p.next_index)
  unfolding append_request
  append_request_lem s p pos fits = (
    omega (arith, size_sub_lem p.next_index 1, pos, fits),
    refl,
    λ first. (rw (eq→== (size_sub p.next_index 1) 0 first) refl),
    omega (
      arith,
      length-collect s.options.append_entries_count_once (suc s.log.last_log_index - p.next_index)
          s.log p.next_index [],
    ),
  )

  -- The message brings entries of the leader from where it starts.
  pub append_request-entries :
      (s : FloydImpl) (p : Peer) (entries : List Entry)
      → Holds s.log entries
      → 0 < p.next_index
      → p.next_index ≤ suc (length entries)
      → let r = append_request byte_size size_once s p in
        (n : ℕ) × (r.entries ≡ take n (drop r.prev_log_index entries))
  unfolding append_request size_sub
  append_request-entries s p entries h pos inside =
      let prev : size_sub p.next_index 1 ≡ p.next_index - 1 =
        omega (arith, size_sub_lem p.next_index 1, pos, inside, h.fits) in
      let (n, e) =
        collect-Holds byte_size size_once s.options.append_entries_count_once
          (suc s.log.last_log_index - p.next_index) s.log (p.next_index - 1) [] entries h
          (omega (arith, h.last, pos, inside)) in
      (
        n,
        ap
              (λ i.
                collect byte_size size_once s.options.append_entries_count_once
                  (suc s.log.last_log_index - p.next_index) s.log i [])
              (next p.next_index pos)
            ∙ e
            ∙ ap (λ i. take n (drop i entries)) (sym prev),
      )
    where
      next : (n : ℕ) → 0 < n → n ≡ suc (n - 1)
      next n h = omega (arith, h)

  -- The exchange until the follower accepts, for at most `fuel` rounds: the message that it
  -- accepts, the follower, and the peer of the leader `s`. `others` are the match indices of the
  -- other peers. There is a next round only if `AppendEntriesRPC` adds the task for it.
  unfoldable pub exchange :
      ℕ → List ℕ → FloydImpl → FloydImpl → Peer → Option (AppendEntries × FloydImpl × Peer)
  exchange zero others s f p = none
  exchange (suc fuel) others s f p =
      let r = append_request byte_size size_once s p in
      do
        (res, f') ← reply_append_entries both 0 r f
        (again, p', s') ← receive_append r res others s p
        let rest = exchange fuel others s f' p' in
            if res.success then some (r, f', p') else (if again then rest else none)

  -- A round that ends the exchange, and one that is followed by another.
  pub exchange-ends :
      (fuel : ℕ) (others : List ℕ) (s f f' s' : FloydImpl) (p p' : Peer)
      (res : AppendEntriesResponse) (again : Bool)
      → let r = append_request byte_size size_once s p in
        reply_append_entries both 0 r f ≡ some (res, f')
        → receive_append r res others s p ≡ some (again, p', s')
        → exchange (suc fuel) others s f p ≡ (
            if res.success
            then some (r, f', p')
            else (if again then exchange fuel others s f' p' else none))
  unfolding exchange
  exchange-ends fuel others s f f' s' p p' res again replied received =
      rw (exchange, replied, received) refl
