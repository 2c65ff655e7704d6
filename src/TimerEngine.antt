-- ===== src/TimerEngine.antt =====
-- base/TimerEngine.h and base/TimerEngine.cpp: the timers of an event loop. A timer is known by its
-- address, and `none` is a failed assertion or the use of a timer that does not exist.
pub mod Keys
pub mod Consistency
pub mod Rearm
pub mod Removal
pub mod Registration
pub mod Lost
pub mod Delay
use moxie_simple.Base.{
  update, ℕ, suc, ◌-◌, ◌*◌, ◌/◌, ◌%◌, ◌^◌, List, [], ◌∷◌, ◌++◌, Bool, true, false, not, ◌&&◌, ◌||◌,
  Option, none, some, ltb, ◌==◌, if◌then◌else◌, assert, ◌>>=◌, ◌>>◌,
}
use moxie_simple.Timestamp.{Timestamp, is_valid, add_time, micro_seconds_per_second}
use moxie_simple.Timer.{Timer, state_is_queued, state_is_expired, set_queued, set_expired, restart}

-- `std::pair<Timestamp, Timer *>`, and `std::set` of them: a list in the order of pairs.
abbrev pub Key : Type 0
Key = Timestamp × ℕ

unfoldable pub same_key : Key → Key → Bool
same_key (t, p) (u, q) = t == u && p == q

unfoldable pub before : Key → Key → Bool
before (t, p) (u, q) = ltb t u || (t == u && ltb p q)

-- `count`, `insert` and `erase` of the set.
unfoldable pub has : Key → List Key → Bool
has key [] = false
has key (k ∷ keys) = same_key k key || has key keys

unfoldable pub insert : Key → List Key → List Key
insert key [] = key ∷ []
insert key (k ∷ keys) =
    let rest = insert key keys in
    if same_key k key then k ∷ keys else (if before key k then key ∷ k ∷ keys else k ∷ rest)

unfoldable pub erase : Key → List Key → List Key
erase key [] = []
erase key (k ∷ keys) = let rest = erase key keys in if same_key k key then rest else k ∷ rest

-- The keys before `lower_bound(sentry)`, and those from there on.
unfoldable pub split_at : Key → List Key → List Key × List Key
split_at sentry [] = ([], [])
split_at sentry (k ∷ keys) =
    let rest = split_at sentry keys in
    if before k sentry then (k ∷ rest.0, rest.1) else ([], k ∷ keys)

-- `class TimerEngine`, with the timers that exist. `timer_exist` is `timerExist_`; `ticks` counts
-- the readings of the clock, and `armed` is what the timer descriptor was last set to.
pub record TimerEngine : Type 0 where
  pub heap : ℕ → Option Timer
  pub timers : List Key
  pub timer_exist : ℕ → Option Timestamp
  pub expired : List Key
  pub td : ℕ
  pub ticks : ℕ
  pub armed : ℕ × ℕ

unfoldable pub store : TimerEngine → ℕ → Timer → TimerEngine
unfolding update
store e p t = record e { heap = update e.heap p (some t) }

-- `assert(timerExist_.erase(timer) == 1); delete timer;`
unfoldable pub discard : TimerEngine → ℕ → Option TimerEngine
unfolding update
discard e p = do
  exists ← e.timer_exist p
  some (record e { heap = update e.heap p none; timer_exist = update e.timer_exist p none })

-- Seconds and nanoseconds. A time that has passed is at a distance of zero, which is below 100 too.
unfoldable pub calc_new_time_val : Timestamp → Timestamp → ℕ × ℕ
calc_new_time_val earliest now =
    let microseconds = if ltb (earliest - now) 100 then 100 else earliest - now in
    (microseconds / micro_seconds_per_second, microseconds % micro_seconds_per_second * 1000)

-- `clock` is `Timestamp::Now()` at each reading, `settime` tells whether `timerfd_settime` succeeds
-- then, and `callback` what the callback of a timer does to the engine.
module _ (clock : ℕ → Timestamp) (settime : ℕ → Bool)
    (callback : ℕ → TimerEngine → Option TimerEngine) where
  unfoldable pub reset_td : Timestamp → TimerEngine → Bool × TimerEngine
  unfolding calc_new_time_val
  reset_td earliest e =
      let e' = record e { ticks = suc e.ticks } in
      if settime e.ticks
      then (true, record e' { armed = calc_new_time_val earliest (clock e.ticks) })
      else (false, e')

  -- `EarlistExpiration`, which reads the clock if there is no timer.
  unfoldable pub earliest_expiration : TimerEngine → Timestamp × TimerEngine
  unfolding add_time
  earliest_expiration e = elim e.timers [
    | [] ↦ (
      add_time (clock e.ticks) (100 * micro_seconds_per_second),
      record e { ticks = suc e.ticks },
    )
    | key ∷ keys ↦ (key.0, e)
  ]

  -- `ResetTd(EarlistExpiration())`.
  unfoldable pub rearm : TimerEngine → Bool × TimerEngine
  unfolding reset_td earliest_expiration
  rearm e = let (earliest, e') = earliest_expiration e in reset_td earliest e'

  -- The key under which the timer stands from an earlier registration is erased.
  unfoldable pub drop_stale : TimerEngine → ℕ → TimerEngine
  unfolding erase
  drop_stale e p = elim (e.timer_exist p) [
    | none ↦ e
    | some t ↦ record e { timers = erase (t, p) e.timers }
  ]

  unfoldable pub enqueue : TimerEngine → ℕ → Timer → TimerEngine
  unfolding store insert update set_queued
  enqueue e p t =
      store
        (record e {
          timers = insert (t.expiration, p) e.timers;
          timer_exist = update e.timer_exist p (some t.expiration);
        })
        p (set_queued t)

  -- The part of `RegisterTimer` for a timer that is not null.
  unfoldable pub register_known : TimerEngine → ℕ → Timer → Bool × TimerEngine
  unfolding is_valid store drop_stale has enqueue rearm
  register_known e p t =
      if not (is_valid t.expiration)
      then (false, e)
      else (if t.will_removed
          then (false, e)
          else (if t.in_running
              then (true, store e p (record t { should_added = true }))
              else (if t.in_expired || t.in_queued
                  then (false, e)
                  else (let e' = drop_stale e p in
                      if has (t.expiration, p) e'.timers
                      then (false, e')
                      else rearm (enqueue e' p t)))))

  unfoldable pub register_timer : TimerEngine → ℕ → Option (Bool × TimerEngine)
  unfolding register_known
  register_timer e p =
      if p == 0 then some (false, e) else (do t ← e.heap p; some (register_known e p t))

  -- The timer is in the queue: it is taken out, forgotten and deleted.
  unfoldable pub unregister_queued : TimerEngine → ℕ → Timestamp → Option TimerEngine
  unfolding has erase discard
  unregister_queued e p t = do
    assert (has (t, p) e.timers)
    discard (record e { timers = erase (t, p) e.timers }) p

  unfoldable pub unregister_timer : TimerEngine → ℕ → Option (Bool × TimerEngine)
  unfolding store unregister_queued rearm
  unregister_timer e p = if p == 0 then some (false, e) else elim (e.timer_exist p) [
    | none ↦ some (false, e)
    | some when ↦ (do
      t ← e.heap p
      if t.in_running || t.in_expired
          then some (true, store e p (record t { will_removed = true }))
          else (do assert t.in_queued; e' ← unregister_queued e p when; some (true, (rearm e').1)))
  ]

  -- The loop of `ExpiredTimers`.
  unfoldable pub mark_expired : List Key → TimerEngine → Option TimerEngine
  unfolding store state_is_queued set_expired
  mark_expired [] e = some e
  mark_expired (key ∷ keys) e = do
    t ← e.heap key.1
    let e' = if state_is_queued t then store e key.1 (set_expired t) else e
    mark_expired keys (record e' { expired = e'.expired ++ key ∷ [] })

  unfoldable pub expired_timers : Timestamp → TimerEngine → Option TimerEngine
  unfolding split_at mark_expired
  expired_timers now e = do
    let (due, rest) = split_at (now, 2 ^ 64 - 1) e.timers
    assert (elim rest [ [] ↦ true | key ∷ keys ↦ ltb now key.0 ])
    e' ← mark_expired due e
    some (record e' { timers = rest })

  -- The loop of `Process` that runs the callbacks.
  unfoldable pub run_expired : List Key → TimerEngine → Option TimerEngine
  unfolding store state_is_expired
  run_expired [] e = some e
  run_expired (key ∷ keys) e = do
    assert (not (key.1 == 0))
    t ← e.heap key.1
    e' ←
        (if state_is_expired t
          then (do
            e₁ ← callback key.1 (store e key.1 (record t { in_running = true }))
            t₁ ← e₁.heap key.1
            some (store e₁ key.1 (record t₁ { in_running = false })))
          else some e)
    run_expired keys e'

  -- One round of `RestartTimer`.
  unfoldable pub restart_one : ℕ → TimerEngine → Option TimerEngine
  unfolding store discard restart register_timer
  restart_one p e = do
    t ← e.heap p
    if t.will_removed
        then discard e p
        else (let t = record t { in_expired = false } in
            let e = store e p t in
            if t.repeat
            then (do
              t' ← restart (clock e.ticks) t
              r ← register_timer (store (record e { ticks = suc e.ticks }) p t') p
              some r.1)
            else (if t.should_added then (do r ← register_timer e p; some r.1) else discard e p))

  unfoldable pub restart_timers : List Key → TimerEngine → Option TimerEngine
  unfolding restart_one
  restart_timers [] e = some e
  restart_timers (key ∷ keys) e = do e' ← restart_one key.1 e; restart_timers keys e'

  -- `Process`, for an event of the descriptor `fd`.
  unfoldable pub process : ℕ → TimerEngine → Option TimerEngine
  unfolding expired_timers run_expired restart_timers rearm
  process fd e = do
    assert (fd == e.td)
    e₁ ← expired_timers (clock e.ticks) (record e { ticks = suc e.ticks })
    e₂ ← run_expired e₁.expired e₁
    e₃ ← restart_timers e₂.expired e₂
    some (rearm (record e₃ { expired = [] })).1
