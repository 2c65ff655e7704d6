-- ===== src/TimerEngine/Rearm.antt =====
-- Setting the timer descriptor in base/TimerEngine.cpp, which leaves the timers alone.
use moxie_simple.Base.{ℕ, ◌≡◌, refl, ◌∙◌, List, [], ◌∷◌, Bool, Option, ◌⊎◌, inl, inr, Bool-cases}
use moxie_simple.Timestamp.{Timestamp}
use moxie_simple.TimerEngine.{Key, TimerEngine, reset_td, earliest_expiration, rearm}
use moxie_simple.TimerEngine.Consistency.{IsValid}

queue-cases : (keys : List Key) → (keys ≡ []) ⊎ ((k : Key) × (rest : List Key) × (keys ≡ k ∷ rest))
queue-cases [] = inl refl
queue-cases (k ∷ rest) = inr (k, rest, refl)

-- The timers, the queue and the map of two engines are the same.
abbrev pub SameTimers : TimerEngine → TimerEngine → Type 0
SameTimers e e' = (e'.heap ≡ e.heap) × (e'.timers ≡ e.timers) × (e'.timer_exist ≡ e.timer_exist)

module _ (clock : ℕ → Timestamp) (settime : ℕ → Bool)
    (callback : ℕ → TimerEngine → Option TimerEngine) where
  reset_td-SameTimers :
      (t : Timestamp) (e : TimerEngine) → SameTimers e (reset_td clock settime callback t e).1
  unfolding reset_td
  reset_td-SameTimers t e = elim (Bool-cases (settime e.ticks)) [
    | inl h ↦ rw (h, reset_td) (refl, refl, refl)
    | inr h ↦ rw (h, reset_td) (refl, refl, refl)
  ]

  earliest_expiration-SameTimers :
      (e : TimerEngine) → SameTimers e (earliest_expiration clock settime callback e).1
  unfolding earliest_expiration
  earliest_expiration-SameTimers e = elim (queue-cases e.timers) [
    | inl h ↦ rw (earliest_expiration, h) (refl, h, refl)
    | inr (k, rest, h) ↦ rw (earliest_expiration, h) (refl, h, refl)
  ]

  -- Setting the descriptor changes no timer.
  pub rearm-SameTimers : (e : TimerEngine) → SameTimers e (rearm clock settime callback e).1
  unfolding rearm
  rearm-SameTimers e =
      let (earliest, e') = earliest_expiration clock settime callback e in
      let (h, q, x) = earliest_expiration-SameTimers e in
      let (h', q', x') = reset_td-SameTimers earliest e' in (h' ∙ h, q' ∙ q, x' ∙ x)

  pub rearm-IsValid : (e : TimerEngine) → IsValid e → IsValid (rearm clock settime callback e).1
  rearm-IsValid e v = let (h, q, x) = rearm-SameTimers e in rw (h, q, x) v
