-- ===== src/Timer.antt =====
-- base/Timer.h and base/Timer.cpp: a timer with its callback. The state word holds five flags,
-- which are Booleans here: SHOULDADDED, INQUEUED, INRUNNING, INEXPIRED and WILLREMOVED.
use moxie_simple.Base.{ℕ, Bool, true, false, not, ◌&&◌, Option, none, some, if◌then◌else◌}
use moxie_simple.Timestamp.{Timestamp, add_time}

-- `class Timer`. `interval` is `interval_` in microseconds, as `AddTime` converts it.
pub record Timer : Type 0 where
  pub expiration : Timestamp
  pub interval : ℕ
  pub repeat : Bool
  pub should_added : Bool
  pub in_queued : Bool
  pub in_running : Bool
  pub in_expired : Bool
  pub will_removed : Bool

-- The constructor, given whether `interval > 0.0`.
unfoldable pub new_timer : Timestamp → ℕ → Bool → Timer
new_timer when interval repeat = record {
  expiration = when;
  interval = interval;
  repeat = repeat;
  should_added = true;
  in_queued = false;
  in_running = false;
  in_expired = false;
  will_removed = false;
}

-- `State() == INQUEUED` and `State() == INEXPIRED`: that flag and no other.
unfoldable pub state_is_queued : Timer → Bool
state_is_queued t =
    t.in_queued && not t.should_added && not t.in_running && not t.in_expired && not t.will_removed

unfoldable pub state_is_expired : Timer → Bool
state_is_expired t =
    t.in_expired && not t.should_added && not t.in_running && not t.in_queued && not t.will_removed

-- `State(INQUEUED)` and `State(INEXPIRED)`.
unfoldable pub set_queued : Timer → Timer
set_queued t = record t {
  should_added = false;
  in_queued = true;
  in_running = false;
  in_expired = false;
  will_removed = false;
}

unfoldable pub set_expired : Timer → Timer
set_expired t = record t {
  should_added = false;
  in_queued = false;
  in_running = false;
  in_expired = true;
  will_removed = false;
}

-- `Restart` at a reading of the clock. `none` is the failed assertion.
unfoldable pub restart : Timestamp → Timer → Option Timer
unfolding add_time
restart now t =
    if t.will_removed
    then some t
    else (if t.repeat
        then some (record t { expiration = add_time now t.interval; should_added = true })
        else none)

unfoldable pub reset : Timestamp → Timer → Timer
reset when t = if t.will_removed then t else record t { expiration = when; should_added = true }
