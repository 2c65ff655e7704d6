-- ===== src/Timestamp.antt =====
-- base/Timestamp.h and base/Timestamp.cpp. A time is its count of microseconds since 1970, an
-- `int64_t` that the model takes as a natural number: the clock has passed 1970, and what is added
-- is not negative. The texts of ToString and ToFormattedString are left out.
use moxie_simple.Base.{ℕ, ◌+◌, ◌*◌, ◌/◌, Bool, ltb, ◌==◌}

-- `class Timestamp`.
abbrev pub Timestamp : Type 0
Timestamp = ℕ

-- `kMicroSecondsPerSecond`.
abbrev pub micro_seconds_per_second : ℕ
micro_seconds_per_second = 1000 * 1000

-- `Invalid()`, which is also the default constructor.
abbrev pub invalid : Timestamp
invalid = 0

unfoldable pub is_valid : Timestamp → Bool
is_valid t = ltb 0 t

-- `Now()` from the two fields that `gettimeofday` fills in.
pub now : ℕ → ℕ → Timestamp
now tv_sec tv_usec = tv_sec * micro_seconds_per_second + tv_usec

pub seconds_since_epoch : Timestamp → ℕ
seconds_since_epoch t = t / micro_seconds_per_second

-- `operator<`, `operator>` and `operator==`.
unfoldable pub earlier : Timestamp → Timestamp → Bool
earlier lhs rhs = ltb lhs rhs

pub later : Timestamp → Timestamp → Bool
later lhs rhs = ltb rhs lhs

pub same : Timestamp → Timestamp → Bool
same lhs rhs = lhs == rhs

-- `AddTime`, where `delta` is what the conversion of `seconds * kMicroSecondsPerSecond` gives.
unfoldable pub add_time : Timestamp → ℕ → Timestamp
add_time t delta = t + delta
