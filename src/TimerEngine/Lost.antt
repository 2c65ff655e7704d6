-- ===== src/TimerEngine/Lost.antt =====
-- What `Process` of base/TimerEngine.cpp does to a timer that was reset while it was in the queue.
use moxie_simple.Base.{
  update, update_same, ℕ, suc, ◌^◌, ◌-◌, ◌≤◌, ◌<◌, ◌≡◌, ◌≢◌, refl, ap, ◌∙◌, [], ◌∷◌, ◌++◌, Bool,
  true, false, Option, none, some, ◌>>=◌, arith, inl, inr, Bool-cases, eq→==, ne→==,
}
use moxie_simple.Timestamp.{Timestamp, is_valid, add_time}
use moxie_simple.Timer.{Timer, reset, restart, state_is_queued, state_is_expired}
use moxie_simple.TimerEngine.{
  before, split_at, TimerEngine, store, rearm, has, register_known, register_timer,
  unregister_timer, unregister_queued, mark_expired, expired_timers, run_expired, restart_one,
  restart_timers, process,
}
use moxie_simple.TimerEngine.Consistency.{IsQueued}
use moxie_simple.TimerEngine.Rearm.{rearm-SameTimers}

reset_lem :
    (when : ℕ) (tm : Timer)
    → tm.will_removed ≡ false
    → reset when tm ≡ record tm { expiration = when; should_added = true }
unfolding reset
reset_lem when tm stays = rw (reset, stays) refl

module _ (clock : ℕ → Timestamp) (settime : ℕ → Bool)
    (callback : ℕ → TimerEngine → Option TimerEngine) where
  register_queued :
      (e : TimerEngine) (p : ℕ) (t : Timer)
      → p ≢ 0
      → e.heap p ≡ some t
      → IsQueued t
      → register_timer clock settime callback e p ≡ some (false, e)
  unfolding register_timer register_known
  register_queued e p t some_timer alive queued = elim (Bool-cases (is_valid t.expiration)) [
    | inr invalid ↦ rw (ne→== p 0 some_timer, register_timer, alive, register_known, invalid) refl
    | inl valid ↦ elim (Bool-cases t.will_removed) [
      | inl removed ↦
          rw (ne→== p 0 some_timer, register_timer, alive, register_known, valid, removed) refl
      | inr stays ↦
          rw
            (
              ne→== p 0 some_timer,
              register_timer,
              alive,
              register_known,
              valid,
              stays,
              queued.not_running,
              queued.not_expired,
              queued.queued,
            )
            refl
    ]
  ]

  -- The queue and the map are as before, and the timer is alive with INQUEUED.
  record StillFlagged (e e' : TimerEngine) (p : ℕ) : Type 0 where
    same_queue : e'.timers ≡ e.timers
    same_map : e'.timer_exist ≡ e.timer_exist
    timer : Timer
    alive : e'.heap p ≡ some timer
    queued : IsQueued timer

  -- The two ways to `RegisterTimer` in `RestartTimer`.
  restart_once :
      (e : TimerEngine) (p : ℕ) (t : Timer)
      → e.heap p ≡ some t
      → t.will_removed ≡ false
      → t.repeat ≡ false
      → t.should_added ≡ true
      → restart_one clock settime callback p e ≡ (
          register_timer clock settime callback (store e p (record t { in_expired = false })) p
          >>= λ r. some r.1)
  unfolding restart_one
  restart_once e p t alive stays once added = rw (restart_one, alive, stays, once, added) refl

  abbrev repeated : TimerEngine → Timer → Timer
  repeated e t = record t {
    expiration = add_time (clock e.ticks) t.interval;
    should_added = true;
    in_expired = false;
  }

  abbrev ticked : TimerEngine → ℕ → Timer → TimerEngine
  ticked e p t =
      store (record (store e p (record t { in_expired = false })) { ticks = suc e.ticks }) p
        (repeated e t)

  restart_again :
      (e : TimerEngine) (p : ℕ) (t : Timer)
      → e.heap p ≡ some t
      → t.will_removed ≡ false
      → t.repeat ≡ true
      → restart_one clock settime callback p e
        ≡ (register_timer clock settime callback (ticked e p t) p >>= λ r. some r.1)
  unfolding restart_one restart store
  restart_again e p t alive stays again = rw (restart_one, alive, stays, again, restart, store) refl

  restart_one-flagged :
      (e : TimerEngine) (p : ℕ) (t : Timer)
      → p ≢ 0
      → e.heap p ≡ some t
      → IsQueued t
      → t.will_removed ≡ false
      → t.should_added ≡ true
      → (e' : TimerEngine) × (restart_one clock settime callback p e ≡ some e')
        × StillFlagged e e' p
  unfolding store
  restart_one-flagged e p t some_timer alive queued stays added =
      let marked = record t { in_expired = false } in
      let known = update_same e.heap p (some marked) in
      let queued_once : IsQueued marked = record {
        queued = queued.queued;
        not_running = queued.not_running;
        not_expired = refl;
      } in
      let queued_again : IsQueued (repeated e t) = record {
        queued = queued.queued;
        not_running = queued.not_running;
        not_expired = refl;
      } in
      let known_again = update_same (update e.heap p (some marked)) p (some (repeated e t)) in
      elim (Bool-cases t.repeat) [
        | inl again ↦ (
          ticked e p t,
          restart_again e p t alive stays again
              ∙ ap (λ r. r >>= λ r. some r.1)
                  (register_queued (ticked e p t) p (repeated e t) some_timer known_again
                    queued_again),
          record {
            same_queue = refl;
            same_map = refl;
            timer = repeated e t;
            alive = known_again;
            queued = queued_again;
          },
        )
        | inr once ↦ (
          store e p marked,
          restart_once e p t alive stays once added
              ∙ ap (λ r. r >>= λ r. some r.1)
                  (register_queued (store e p marked) p marked some_timer known queued_once),
          record {
            same_queue = refl;
            same_map = refl;
            timer = marked;
            alive = known;
            queued = queued_once;
          },
        )
      ]

  -- `ExpiredTimers` moves the only timer, which is due, and leaves its state if it is reset.
  expired_reset :
      (e : TimerEngine) (p t now : ℕ) (tm : Timer)
      → e.timers ≡ (t, p) ∷ []
      → e.heap p ≡ some tm
      → tm.should_added ≡ true
      → t ≤ now
      → p < 2 ^ 64 - 1
      → expired_timers clock settime callback now e
        ≡ some (record e { expired = e.expired ++ (t, p) ∷ []; timers = [] })
  unfolding expired_timers mark_expired split_at state_is_queued
  expired_reset e p t now tm only alive added due address =
      let first : before (t, p) (now, 2 ^ 64 - 1) ≡ true = unfold before in ground arith in
      let other : state_is_queued tm ≡ false = ground arith in
      rw (expired_timers, only, split_at, first, mark_expired, alive, other) refl

  -- Its callback does not run.
  run_reset :
      (e : TimerEngine) (p t : ℕ) (tm : Timer)
      → p ≢ 0
      → e.heap p ≡ some tm
      → tm.should_added ≡ true
      → run_expired clock settime callback ((t, p) ∷ []) e ≡ some e
  unfolding run_expired state_is_expired
  run_reset e p t tm some_timer alive added =
      let other : state_is_expired tm ≡ false = ground arith in
      rw (run_expired, ne→== p 0 some_timer, alive, other) refl

  restart_only :
      (e e' : TimerEngine) (p t : ℕ)
      → restart_one clock settime callback p e ≡ some e'
      → restart_timers clock settime callback ((t, p) ∷ []) e ≡ some e'
  unfolding restart_timers
  restart_only e e' p t h = rw (restart_timers, h) refl

  unregister_lost :
      (e : TimerEngine) (p t : ℕ) (tm : Timer)
      → p ≢ 0
      → e.timers ≡ []
      → e.timer_exist p ≡ some t
      → e.heap p ≡ some tm
      → IsQueued tm
      → unregister_timer clock settime callback e p ≡ none
  unfolding unregister_timer unregister_queued has
  unregister_lost e p t tm some_timer empty known alive queued =
      rw
        (
          ne→== p 0 some_timer,
          unregister_timer,
          known,
          alive,
          queued.not_running,
          queued.not_expired,
          queued.queued,
          unregister_queued,
          empty,
          has,
        )
        refl

  -- A timer in the queue that is reset to any time is lost when its old expiration comes: if it is
  -- the only timer, `Process` leaves the queue empty and the timer known to `timerExist_`. Its
  -- callback has not run, whatever it does, and `UnregisterTimer` fails its assertion from then on.
  pub process-loses :
      (e : TimerEngine) (p t when : ℕ) (tm : Timer)
      → p ≢ 0
      → p < 2 ^ 64 - 1
      → t ≤ clock e.ticks
      → e.timers ≡ (t, p) ∷ []
      → e.timer_exist p ≡ some t
      → e.expired ≡ []
      → IsQueued tm
      → tm.will_removed ≡ false
      → e.heap p ≡ some (reset when tm)
      → (e' : TimerEngine) × (process clock settime callback e.td e ≡ some e')
        × (e'.timers ≡ [])
        × (e'.timer_exist p ≡ some t)
        × (unregister_timer clock settime callback e' p ≡ none)
  unfolding process
  process-loses e p t when tm some_timer address due only known idle queued stays reset_before =
      let tm' : Timer = record tm { expiration = when; should_added = true } in
      let alive : e.heap p ≡ some tm' = reset_before ∙ ap some (reset_lem when tm stays) in
      let queued' : IsQueued tm' = record {
        queued = queued.queued;
        not_running = queued.not_running;
        not_expired = queued.not_expired;
      } in
      let e₀ : TimerEngine = record e { ticks = suc e.ticks } in
      let e₁ : TimerEngine = record e₀ { expired = (t, p) ∷ []; timers = [] } in
      let (e₃, restarted, still) =
        restart_one-flagged e₁ p tm' some_timer alive queued' stays refl in
      let moved : expired_timers clock settime callback (clock e.ticks) e₀ ≡ some e₁ =
        expired_reset e₀ p t (clock e.ticks) tm' only alive refl due address
        ∙ ap (λ old. some (record e₀ { expired = old ++ (t, p) ∷ []; timers = [] })) idle in
      let last = record e₃ { expired = [] } in
      let (same_heap, same_queue, same_map) = rearm-SameTimers clock settime callback last in
      let e' = (rearm clock settime callback last).1 in
      let still_known : e'.timer_exist p ≡ some t =
        ap (λ m. m p) (same_map ∙ still.same_map) ∙ known in
      (
        e',
        rw
            (
              eq→== e.td e.td refl,
              process,
              moved,
              run_reset e₁ p t tm' some_timer alive refl,
              restart_only e₁ e₃ p t restarted,
            )
            refl,
        same_queue ∙ still.same_queue,
        still_known,
        unregister_lost e' p t still.timer some_timer (same_queue ∙ still.same_queue) still_known
            (ap (λ h. h p) same_heap ∙ still.alive) still.queued,
      )
