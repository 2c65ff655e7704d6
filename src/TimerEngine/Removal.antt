-- ===== src/TimerEngine/Removal.antt =====
-- `UnregisterTimer` of base/TimerEngine.cpp on a consistent engine.
use moxie_simple.Base.{
  update, update_same, ℕ, ◌≡◌, ◌≢◌, refl, ap, ◌∙◌, Bool, true, false, Option, none, some, ◌⊎◌, inl,
  inr, ne→==, Option-cases,
}
use moxie_simple.Timestamp.{Timestamp}
use moxie_simple.Timer.{Timer}
use moxie_simple.TimerEngine.{
  has, erase, TimerEngine, store, discard, rearm, unregister_queued, unregister_timer,
}
use moxie_simple.TimerEngine.Consistency.{IsValid, store-IsValid, removed-Consistent}
use moxie_simple.TimerEngine.Rearm.{rearm-SameTimers, rearm-IsValid}

module _ (clock : ℕ → Timestamp) (settime : ℕ → Bool)
    (callback : ℕ → TimerEngine → Option TimerEngine) where
  unregister_queued_lem :
      (e : TimerEngine) (p : ℕ) (t : Timestamp)
      → has (t, p) e.timers ≡ true
      → e.timer_exist p ≡ some t
      → unregister_queued clock settime callback e p t
        ≡ some (record e {
          heap = update e.heap p none;
          timers = erase (t, p) e.timers;
          timer_exist = update e.timer_exist p none;
        })
  unfolding unregister_queued discard
  unregister_queued_lem e p t there known = rw (there, known) refl

  -- On a consistent engine `UnregisterTimer` of any address but null fails no assertion and touches
  -- no timer that is gone. The engine stays consistent, and the timer is unknown to it or, if it is
  -- being processed, is marked to be removed.
  pub unregister_timer-IsValid :
      (e : TimerEngine) (p : ℕ)
      → IsValid e
      → p ≢ 0
      → (b : Bool) × (e' : TimerEngine) × (unregister_timer clock settime callback e p
          ≡ some (b, e'))
        × IsValid e'
        × ((e'.timer_exist p ≡ none)
            ⊎ ((t : Timer) × (e'.heap p ≡ some t) × (t.will_removed ≡ true)))
  unfolding unregister_timer store
  unregister_timer-IsValid e p v some_timer = elim (Option-cases (e.timer_exist p)) [
    | inl h ↦ (false, e, rw (ne→== p 0 some_timer, unregister_timer, h) refl, v, inl h)
    | inr (t, h) ↦ elim (v.accounted t p h) [
      | inl there ↦
          let (known, tm, alive, queued) = v.listed t p there in
          let e' : TimerEngine = record e {
            heap = update e.heap p none;
            timers = erase (t, p) e.timers;
            timer_exist = update e.timer_exist p none;
          } in
          let (same_heap, same_queue, same_map) = rearm-SameTimers clock settime callback e' in
          (
            true,
            (rearm clock settime callback e').1,
            rw
                (
                  ne→== p 0 some_timer,
                  unregister_timer,
                  h,
                  alive,
                  queued.not_running,
                  queued.not_expired,
                  queued.queued,
                  unregister_queued_lem e p t there known,
                )
                refl,
            rearm-IsValid clock settime callback e'
                (removed-Consistent e.heap e.timers e.timer_exist t p v known),
            inl (ap (λ m. m p) same_map ∙ update_same e.timer_exist p none),
          )
      | inr (tm, alive, busy) ↦ (
        true,
        store e p (record tm { will_removed = true }),
        rw (ne→== p 0 some_timer, unregister_timer, h, alive, busy) refl,
        store-IsValid e p tm (record tm { will_removed = true }) v alive busy busy,
        inr (
          record tm { will_removed = true },
          update_same e.heap p (some (record tm { will_removed = true })),
          refl,
        ),
      )
    ]
  ]
