-- ===== src/TimerEngine/Consistency.antt =====
-- The invariant of base/TimerEngine.h: `timers_`, `timerExist_` and the flags of the timers agree.
use moxie_simple.Base.{
  update, update_same, update_other, ℕ, ◌≡◌, ◌≢◌, sym, ap, ◌∙◌, List, true, false, ◌||◌, Option,
  none, some, arith, ◌⊎◌, inl, inr, ℕ_discrete,
}
use moxie_simple.Timestamp.{Timestamp}
use moxie_simple.Timer.{Timer}
use moxie_simple.TimerEngine.{Key, same_key, has, insert, erase, TimerEngine, store}
use moxie_simple.TimerEngine.Keys.{
  same_key_lem, other_timer, same_key_refl, erased, kept, inserted, kept-insert, there-insert,
}

-- A timer in the queue has INQUEUED and neither INRUNNING nor INEXPIRED. It may have SHOULDADDED,
-- from `Reset`.
pub record IsQueued (t : Timer) : Type 0 where
  pub queued : t.in_queued ≡ true
  pub not_running : t.in_running ≡ false
  pub not_expired : t.in_expired ≡ false

abbrev pub IsBusy : Timer → Type 0
IsBusy t = (t.in_running || t.in_expired) ≡ true

-- A key in the queue is the one that `timerExist_` has for its timer, which is alive and queued. A
-- timer that `timerExist_` knows is in the queue, or is being processed.
pub record Consistent (heap : ℕ → Option Timer) (timers : List Key) (exist : ℕ → Option Timestamp)
    : Type 0 where
  pub listed :
      (t p : ℕ)
      → has (t, p) timers ≡ true
      → (exist p ≡ some t) × (tm : Timer) × (heap p ≡ some tm) × IsQueued tm
  pub accounted :
      (t p : ℕ)
      → exist p ≡ some t
      → (has (t, p) timers ≡ true) ⊎ ((tm : Timer) × (heap p ≡ some tm) × IsBusy tm)

abbrev pub IsValid : TimerEngine → Type 0
IsValid e = Consistent e.heap e.timers e.timer_exist

-- A flag of a timer that is being processed may change, as long as it is still being processed.
pub store-IsValid :
    (e : TimerEngine) (p : ℕ) (tm tm' : Timer)
    → IsValid e
    → e.heap p ≡ some tm
    → IsBusy tm
    → IsBusy tm'
    → IsValid (store e p tm')
unfolding store
store-IsValid e p tm tm' v alive busy busy' = record {
  listed = λ t q h.
      (let (known, s, there, queued) = v.listed t q h in
        elim (ℕ_discrete q p) [
          | yes same ↦
              absurd (queued_not_busy s tm queued busy (sym there ∙ ap e.heap same ∙ alive))
          | no other ↦ (known, s, update_other e.heap p q (some tm') other ∙ there, queued)
        ]);
  accounted = λ t q h. (elim (ℕ_discrete q p) [
    | yes same ↦
        inr (tm', ap (update e.heap p (some tm')) same ∙ update_same e.heap p (some tm'), busy')
    | no other ↦ elim (v.accounted t q h) [
      | inl there ↦ inl there
      | inr (s, there, b) ↦ inr (s, update_other e.heap p q (some tm') other ∙ there, b)
    ]
  ]);
}
  where
    queued_not_busy : (s tm : Timer) → IsQueued s → IsBusy tm → some s ≡ some tm → ⊥
    queued_not_busy s tm queued busy h =
        let running = queued.not_running in
        let expired = queued.not_expired in
        let r : tm.in_running ≡ false = cc in let x : tm.in_expired ≡ false = cc in ground arith

-- A timer leaves the queue and is deleted.
pub removed-Consistent :
    (heap : ℕ → Option Timer) (timers : List Key) (exist : ℕ → Option Timestamp) (t p : ℕ)
    → Consistent heap timers exist
    → exist p ≡ some t
    → Consistent (update heap p none) (erase (t, p) timers) (update exist p none)
removed-Consistent heap timers exist t p v known = record {
  listed = λ u q h.
      (let (key_known, s, there, queued) = v.listed u q (erased (u, q) (t, p) timers h).0 in
        elim (ℕ_discrete q p) [
          | yes same ↦ absurd (gone u q h same key_known)
          | no other ↦ (
            update_other exist p q none other ∙ key_known,
            s,
            update_other heap p q none other ∙ there,
            queued,
          )
        ]);
  accounted = λ u q h. (elim (ℕ_discrete q p) [
    | yes same ↦ absurd (unknown u q same h)
    | no other ↦ elim (v.accounted u q (sym (update_other exist p q none other) ∙ h)) [
      | inl there ↦ inl (kept (u, q) (t, p) timers there (other_timer t u p q (λ e. other (sym e))))
      | inr (s, there, b) ↦ inr (s, update_other heap p q none other ∙ there, b)
    ]
  ]);
}
  where
    gone : (u q : ℕ) → has (u, q) (erase (t, p) timers) ≡ true → q ≡ p → exist q ≡ some u → ⊥
    gone u q h same key_known =
        let stays = (erased (u, q) (t, p) timers h).1 in
        let e : exist p ≡ some u = ap exist (sym same) ∙ key_known in
        let same_time : t ≡ u = cc in
        let whole : same_key (t, p) (u, q) ≡ true = rw (← same_time, same) (same_key_refl t p) in cc

    unknown : (u q : ℕ) → q ≡ p → update exist p none q ≡ some u → ⊥
    unknown u q same h =
        let e = ap (update exist p none) (sym same) in let n = update_same exist p none in cc

-- A timer that no key names joins the queue.
pub added-Consistent :
    (heap : ℕ → Option Timer) (timers : List Key) (exist : ℕ → Option Timestamp) (t p : ℕ)
    (tm : Timer)
    → Consistent heap timers exist
    → exist p ≡ none
    → IsQueued tm
    → Consistent (update heap p (some tm)) (insert (t, p) timers) (update exist p (some t))
added-Consistent heap timers exist t p tm v new queued = record {
  listed = λ u q h. (elim (ℕ_discrete q p) [
    | yes same ↦ (
      own_entry q same ∙ ap some (own_key u q same h),
      tm,
      ap (update heap p (some tm)) same ∙ update_same heap p (some tm),
      queued,
    )
    | no other ↦
        let (known, s, there, s_queued) = v.listed u q (old_key u q other h) in
        (
          update_other exist p q (some t) other ∙ known,
          s,
          update_other heap p q (some tm) other ∙ there,
          s_queued,
        )
  ]);
  accounted = λ u q h. (elim (ℕ_discrete q p) [
    | yes same ↦ inl (own_place u q same (sym (own_entry q same) ∙ h))
    | no other ↦ elim (v.accounted u q (sym (update_other exist p q (some t) other) ∙ h)) [
      | inl there ↦ inl (kept-insert (u, q) (t, p) timers there)
      | inr (s, there, b) ↦ inr (s, update_other heap p q (some tm) other ∙ there, b)
    ]
  ]);
}
  where
    own_entry : (q : ℕ) → q ≡ p → update exist p (some t) q ≡ some t
    own_entry q same = ap (update exist p (some t)) same ∙ update_same exist p (some t)

    no_entry : (u q : ℕ) → q ≡ p → exist q ≡ some u → ⊥
    no_entry u q same h = let e = ap exist same in cc

    own_key : (u q : ℕ) → q ≡ p → has (u, q) (insert (t, p) timers) ≡ true → t ≡ u
    own_key u q same h = elim (inserted (u, q) (t, p) timers h) [
      | inl whole ↦ (same_key_lem t u p q whole).0
      | inr there ↦ absurd (no_entry u q same (v.listed u q there).0)
    ]

    old_key :
        (u q : ℕ) → q ≢ p → has (u, q) (insert (t, p) timers) ≡ true → has (u, q) timers ≡ true
    old_key u q other h = elim (inserted (u, q) (t, p) timers h) [
      | inl whole ↦ absurd (other (sym (same_key_lem t u p q whole).1))
      | inr there ↦ there
    ]

    own_place : (u q : ℕ) → q ≡ p → some t ≡ some u → has (u, q) (insert (t, p) timers) ≡ true
    own_place u q same h = let e : u ≡ t = cc in rw (e, same) (there-insert t p timers)
