-- ===== src/Tests/TimerTests.antt =====
-- base/TimerEngine.cpp at concrete engines.
use moxie_simple.Base.{
  ℕ, ◌+◌, ◌*◌, ◌≡◌, refl, [], ◌∷◌, Bool, true, Option, none, some, arith, ◌⊎◌, inl, ◌==◌,
  if◌then◌else◌,
}
use moxie_simple.Timer.{Timer, new_timer, set_queued, reset}
use moxie_simple.TimerEngine.{TimerEngine, has, same_key, register_timer, unregister_timer, process}
use moxie_simple.TimerEngine.Consistency.{IsQueued, IsValid}
use moxie_simple.TimerEngine.Registration.{IsIdle, Registered, register_timer-IsValid}
use moxie_simple.TimerEngine.Removal.{unregister_timer-IsValid}
use moxie_simple.TimerEngine.Lost.{process-loses}

-- The clock moves on by ten microseconds with every reading.
abbrev clock : ℕ → ℕ
clock n = 1000 + 10 * n

abbrev settime : ℕ → Bool
settime n = true

-- A callback that must not run.
abbrev callback : ℕ → TimerEngine → Option TimerEngine
callback p e = none

abbrev timer : Timer
timer = new_timer 1200 500 true

abbrev heap : ℕ → Option Timer
heap p = if p == 64 then some timer else none

-- A timer has been made and is not registered.
abbrev fresh : TimerEngine
fresh = record {
  heap = heap;
  timers = [];
  timer_exist = λ p. none;
  expired = [];
  td = 5;
  ticks = 0;
  armed = (0, 0);
}

fresh-IsValid : IsValid fresh
unfolding has
fresh-IsValid = record { listed = λ t p h. (absurd cc); accounted = λ t p h. (absurd cc) }

timer-IsIdle : IsIdle timer
unfolding new_timer
timer-IsIdle = record {
  not_removed = refl;
  not_running = refl;
  not_expired = refl;
  not_queued = refl;
}

register_timer-IsValid_example :
    (b : Bool) × (e' : TimerEngine) × (register_timer clock settime callback fresh 64
      ≡ some (b, e'))
    × IsValid e'
    × Registered settime fresh 64 timer (b, e')
register_timer-IsValid_example =
    register_timer-IsValid clock settime callback fresh 64 timer fresh-IsValid refl

-- The timer is queued.
abbrev queueing : Timer → TimerEngine
queueing t = record fresh {
  heap = λ p. (if p == 64 then some t else none);
  timers = (1000, 64) ∷ [];
  timer_exist = λ p. (if p == 64 then some 1000 else none);
}

set_queued-IsQueued : IsQueued (set_queued timer)
unfolding set_queued
set_queued-IsQueued = record { queued = refl; not_running = refl; not_expired = refl }

process-loses_example :
    (e' : TimerEngine) × (process clock settime callback 5
        (queueing (reset 3000 (set_queued timer)))
      ≡ some e')
    × (e'.timers ≡ [])
    × (e'.timer_exist 64 ≡ some 1000)
    × (unregister_timer clock settime callback e' 64 ≡ none)
unfolding set_queued
process-loses_example =
    process-loses clock settime callback (queueing (reset 3000 (set_queued timer))) 64 1000 3000
      (set_queued timer) (λ h. cc) (omega arith) (omega arith) refl refl refl set_queued-IsQueued
      refl refl

only_key : (t p : ℕ) → has (t, p) ((1000, 64) ∷ []) ≡ true → (1000 ≡ t) × (64 ≡ p)
unfolding has same_key
only_key t p h = ground arith

own_key :
    (t p : ℕ) → (if p == 64 then some 1000 else none) ≡ some t → has (t, p) ((1000, 64) ∷ []) ≡ true
unfolding has same_key
own_key t p h = ground arith

queueing-IsValid : IsValid (queueing (set_queued timer))
queueing-IsValid = record {
  listed = λ t p h.
      (let (same_time, same_timer) = only_key t p h in
        (
          rw (← same_time, ← same_timer) refl,
          set_queued timer,
          rw (← same_timer) refl,
          set_queued-IsQueued,
        ));
  accounted = λ t p h. inl (own_key t p h);
}

unregister_timer-IsValid_example :
    (b : Bool) × (e' : TimerEngine) × (unregister_timer clock settime callback
        (queueing (set_queued timer))
        64
      ≡ some (b, e'))
    × IsValid e'
    × ((e'.timer_exist 64 ≡ none) ⊎ ((t : Timer) × (e'.heap 64 ≡ some t) × (t.will_removed ≡ true)))
unregister_timer-IsValid_example =
    unregister_timer-IsValid clock settime callback (queueing (set_queued timer)) 64
      queueing-IsValid (λ h. cc)
