-- ===== src/TimerEngine/Registration.antt =====
-- `RegisterTimer` of base/TimerEngine.cpp on a consistent engine.
use moxie_simple.Base.{
  update, update_same, subst, sym, List, [], ◌∷◌, ◌⊎◌, ℕ, ◌≡◌, ◌≢◌, refl, ap, ◌∙◌, Bool, true,
  false, ◌||◌, Option, none, some, arith, inl, inr, Bool-cases, ℕ_discrete, eq→==, ne→==,
  Option-cases,
}
use moxie_simple.Timestamp.{Timestamp, is_valid}
use moxie_simple.Timer.{Timer, set_queued}
use moxie_simple.TimerEngine.{
  Key, insert, same_key, before, earliest_expiration, reset_td, has, TimerEngine, store, rearm,
  drop_stale, enqueue, register_known, register_timer,
}
use moxie_simple.TimerEngine.Keys.{there-insert}
use moxie_simple.TimerEngine.Consistency.{IsBusy, IsValid, store-IsValid, added-Consistent}
use moxie_simple.TimerEngine.Rearm.{rearm-SameTimers, rearm-IsValid}

-- The flags of a timer that is neither in the queue nor being processed.
pub record IsIdle (t : Timer) : Type 0 where
  pub not_removed : t.will_removed ≡ false
  pub not_running : t.in_running ≡ false
  pub not_expired : t.in_expired ≡ false
  pub not_queued : t.in_queued ≡ false

-- The timers that `RegisterTimer` refuses.
abbrev pub Untouched : ℕ → Timer → Type 0
Untouched p t =
    (p ≡ 0)
    ⊎ (is_valid t.expiration ≡ false)
    ⊎ (t.will_removed ≡ true)
    ⊎ ((t.in_running ≡ false) × ((t.in_expired || t.in_queued) ≡ true))

-- What `RegisterTimer` may come to for the timer `t` at the address `p`.
pub data Registered (settime : ℕ → Bool) (e : TimerEngine) (p : ℕ) (t : Timer)
    : Bool × TimerEngine → Type 0 where
  scheduled :
      {e' : TimerEngine}
      → p ≢ 0
      → is_valid t.expiration ≡ true
      → IsIdle t
      → e'.heap ≡ update e.heap p (some (set_queued t))
      → e'.timers ≡ insert (t.expiration, p) e.timers
      → e'.timer_exist ≡ update e.timer_exist p (some t.expiration)
      → Registered settime e p t (settime e.ticks, e')
  deferred :
      p ≢ 0
      → is_valid t.expiration ≡ true
      → t.will_removed ≡ false
      → t.in_running ≡ true
      → Registered settime e p t
          (true, record e { heap = update e.heap p (some (record t { should_added = true })) })
  refused : Untouched p t → Registered settime e p t (false, e)

abbrev Known : (ℕ → Bool) → TimerEngine → ℕ → Timer → Bool × TimerEngine → Type 0
Known settime e p t r = IsValid r.1 × Registered settime e p t r

insert-some :
    (key : Key) (keys : List Key) → (k : Key) × (ks : List Key) × (insert key keys ≡ k ∷ ks)
unfolding insert
insert-some key [] = (key, [], refl)
insert-some key (k ∷ keys) = elim (Bool-cases (same_key k key)) [
  | inl same ↦ (k, keys, rw same refl)
  | inr other ↦ elim (Bool-cases (before key k)) [
    | inl first ↦ (key, k ∷ keys, rw (other, first) refl)
    | inr later ↦ (k, insert key keys, rw (other, later) refl)
  ]
]

-- An idle timer is not registered.
idle-unknown :
    (e : TimerEngine) (p : ℕ) (t : Timer)
    → IsValid e
    → e.heap p ≡ some t
    → IsIdle t
    → e.timer_exist p ≡ none
idle-unknown e p t v alive idle = elim (Option-cases (e.timer_exist p)) [
  | inl h ↦ h
  | inr (u, h) ↦ elim (v.accounted u p h) [
    | inl there ↦
        let (known, s, there_too, queued) = v.listed u p there in
        let yes_queued = queued.queued in let no_queued = idle.not_queued in absurd cc
    | inr (s, there, busy) ↦ absurd (not_busy s there busy)
  ]
]
  where
    not_busy : (s : Timer) → e.heap p ≡ some s → IsBusy s → ⊥
    not_busy s there busy =
        let same : s ≡ t = cc in
        let running = idle.not_running in
        let expired = idle.not_expired in
        let r : s.in_running ≡ false = cc in let x : s.in_expired ≡ false = cc in ground arith

unlisted :
    (e : TimerEngine) (p u : ℕ) → IsValid e → e.timer_exist p ≡ none → has (u, p) e.timers ≡ false
unlisted e p u v new = elim (Bool-cases (has (u, p) e.timers)) [
  | inl there ↦ let known = (v.listed u p there).0 in absurd cc
  | inr h ↦ h
]

module _ (clock : ℕ → Timestamp) (settime : ℕ → Bool)
    (callback : ℕ → TimerEngine → Option TimerEngine) where
  idle_known :
      (e : TimerEngine) (p : ℕ) (t : Timer)
      → IsValid e
      → e.heap p ≡ some t
      → is_valid t.expiration ≡ true
      → IsIdle t
      → register_known clock settime callback e p t
        ≡ rearm clock settime callback (enqueue clock settime callback e p t)
  unfolding register_known drop_stale
  idle_known e p t v alive valid idle =
      let new = idle-unknown e p t v alive idle in
      rw
        (
          register_known,
          drop_stale,
          valid,
          idle.not_removed,
          idle.not_running,
          idle.not_expired,
          idle.not_queued,
          new,
          unlisted e p t.expiration v new,
        )
        refl

  enqueue-IsValid :
      (e : TimerEngine) (p : ℕ) (t : Timer)
      → IsValid e
      → e.timer_exist p ≡ none
      → IsValid (enqueue clock settime callback e p t)
  unfolding enqueue store set_queued
  enqueue-IsValid e p t v new =
      added-Consistent e.heap e.timers e.timer_exist t.expiration p (set_queued t) v new
        record { queued = refl; not_running = refl; not_expired = refl }

  rearm-told :
      (e : TimerEngine) (k : Key) (ks : List Key)
      → e.timers ≡ k ∷ ks
      → (rearm clock settime callback e).0 ≡ settime e.ticks
  unfolding rearm earliest_expiration reset_td
  rearm-told e k ks some_left = elim (Bool-cases (settime e.ticks)) [
    | inl sets ↦ simp (rearm, earliest_expiration, reset_td, some_left, sets)
    | inr fails ↦ simp (rearm, earliest_expiration, reset_td, some_left, fails)
  ]

  rearmed :
      (e : TimerEngine) (p : ℕ) (t : Timer)
      → p ≢ 0
      → is_valid t.expiration ≡ true
      → IsIdle t
      → Registered settime e p t
          (rearm clock settime callback (enqueue clock settime callback e p t))
  unfolding enqueue store
  rearmed e p t some_timer valid idle =
      let e₁ = enqueue clock settime callback e p t in
      let (h, q, x) = rearm-SameTimers clock settime callback e₁ in
      let (k, ks, some_left) = insert-some (t.expiration, p) e.timers in
      subst (λ b. Registered settime e p t (b, (rearm clock settime callback e₁).1))
        (sym (rearm-told e₁ k ks some_left)) (scheduled some_timer valid idle h q x)

  -- On a consistent engine `RegisterTimer` of an idle timer with a valid expiration puts it in the
  -- queue under that expiration, and the engine stays consistent.
  pub register_timer_lem :
      (e : TimerEngine) (p : ℕ) (t : Timer)
      → IsValid e
      → p ≢ 0
      → e.heap p ≡ some t
      → is_valid t.expiration ≡ true
      → IsIdle t
      → (b : Bool) × (e' : TimerEngine) × (register_timer clock settime callback e p ≡ some (b, e'))
        × IsValid e'
        × (e'.timer_exist p ≡ some t.expiration)
        × (has (t.expiration, p) e'.timers ≡ true)
  unfolding register_timer enqueue store
  register_timer_lem e p t v some_timer alive valid idle =
      let e₁ = enqueue clock settime callback e p t in
      let (same_heap, same_queue, same_map) = rearm-SameTimers clock settime callback e₁ in
      let new = idle-unknown e p t v alive idle in
      (
        (rearm clock settime callback e₁).0,
        (rearm clock settime callback e₁).1,
        rw (ne→== p 0 some_timer, register_timer, alive)
            (ap some (idle_known e p t v alive valid idle)),
        rearm-IsValid clock settime callback e₁ (enqueue-IsValid e p t v new),
        ap (λ m. m p) same_map ∙ update_same e.timer_exist p (some t.expiration),
        ap (has (t.expiration, p)) same_queue ∙ there-insert t.expiration p e.timers,
      )

  running_known :
      (e : TimerEngine) (p : ℕ) (t : Timer)
      → is_valid t.expiration ≡ true
      → t.will_removed ≡ false
      → t.in_running ≡ true
      → ◌≡◌ {A = Bool × TimerEngine}
          (register_known clock settime callback e p t)
          (true, store e p (record t { should_added = true }))
  unfolding register_known
  running_known e p t valid stays running = rw (register_known, valid, stays, running) refl

  register_known-cases :
      (e : TimerEngine) (p : ℕ) (t : Timer)
      → IsValid e
      → p ≢ 0
      → e.heap p ≡ some t
      → Known settime e p t (register_known clock settime callback e p t)
  register_known-cases e p t v some_timer alive =
      unfold register_known in
      elim (Bool-cases (is_valid t.expiration)) [
        | inr invalid ↦ nothing (rw (register_known, invalid) refl) (inr (inl invalid))
        | inl valid ↦ elim (Bool-cases t.will_removed) [
          | inl removed ↦
              nothing (rw (register_known, valid, removed) refl) (inr (inr (inl removed)))
          | inr stays ↦ elim (Bool-cases t.in_running) [
            | inl running ↦
                subst (Known settime e p t) (sym (running_known e p t valid stays running)) (
                  store-IsValid e p t (record t { should_added = true }) v alive (busy running)
                      (busy running),
                  deferred some_timer valid stays running,
                )
            | inr waits ↦ elim (Bool-cases (t.in_expired || t.in_queued)) [
              | inl known ↦
                  nothing (rw (register_known, valid, stays, waits, known) refl)
                    (inr (inr (inr (waits, known))))
              | inr idle ↦
                  let i : IsIdle t = record {
                    not_removed = stays;
                    not_running = waits;
                    not_expired = ground arith;
                    not_queued = ground arith;
                  } in
                  subst (Known settime e p t) (sym (idle_known e p t v alive valid i)) (
                    rearm-IsValid clock settime callback (enqueue clock settime callback e p t)
                        (enqueue-IsValid e p t v (idle-unknown e p t v alive i)),
                    rearmed e p t some_timer valid i,
                  )
            ]
          ]
        ]
      ]
    where
      nothing :
          register_known clock settime callback e p t ≡ (false, e)
          → Untouched p t
          → Known settime e p t (register_known clock settime callback e p t)
      nothing same why = subst (Known settime e p t) (sym same) (v, refused why)

      busy : t.in_running ≡ true → (t.in_running || t.in_expired) ≡ true
      busy h = ground arith

  -- `RegisterTimer` of any living timer, on a consistent engine, returns, and keeps the engine
  -- consistent. It does one of three things. An idle timer whose expiration is valid is put in the
  -- queue under its expiration, with its flag, and no other key or timer changes; the descriptor is
  -- set, and the result tells whether that succeeded. A timer that is running, has a valid expiration
  -- and is not to be removed gets the flag that adds it later, with the result true. Else, for a null
  -- pointer, an invalid expiration, a timer that is to be removed, or one that does not run and is in
  -- the queue or expired, the result is false and nothing changes.
  pub register_timer-IsValid :
      (e : TimerEngine) (p : ℕ) (t : Timer)
      → IsValid e
      → e.heap p ≡ some t
      → (b : Bool) × (e' : TimerEngine) × (register_timer clock settime callback e p ≡ some (b, e'))
        × IsValid e'
        × Registered settime e p t (b, e')
  unfolding register_timer
  register_timer-IsValid e p t v alive = elim (ℕ_discrete p 0) [
    | yes null ↦ (false, e, rw (eq→== p 0 null, register_timer) refl, v, refused (inl null))
    | no some_timer ↦ (
      (register_known clock settime callback e p t).0,
      (register_known clock settime callback e p t).1,
      rw (ne→== p 0 some_timer, register_timer, alive) refl,
      (register_known-cases e p t v some_timer alive).0,
      (register_known-cases e p t v some_timer alive).1,
    )
  ]
