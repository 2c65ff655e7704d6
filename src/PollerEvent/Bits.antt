-- ===== src/PollerEvent/Bits.antt =====
-- The bit operations of base/PollerEvent.h, read as a set of flags: EPOLLOUT is the bit of weight
-- four, and the two bits below it are those of `kReadEvent`.
use moxie_simple.Base.{
  ℕ, ◌-◌, ◌*◌, ◌/◌, ◌%◌, ◌^◌, ◌<◌, ◌≡◌, ◌≢◌, ◌↔◌, arith, true, false, bit_and, bit_or, ap,
}
use moxie_simple.Base.Bits.{
  bit_and_step, bit_or_step, bit_and-zero, zero-bit_and, bit_or-zero, bit_and_ones,
}
use moxie_simple.PollerEvent.{
  PollerEvent, enable_write, disable_write, valatile_read_event, valatile_write_event,
  valatile_close_event,
}

or_four : (x : ℕ) → (bit_or x 4 / 4 % 2 ≡ 1) × (bit_or x 4 % 4 ≡ x % 4) × (bit_or x 4 / 8 ≡ x / 8)
or_four x = omega (
  arith,
  bit_or_step x 4,
  bit_or_step (x / 2) 2,
  bit_or_step (x / 2 / 2) 1,
  bit_or-zero (x / 2 / 2 / 2),
)

and_four : (x : ℕ) → bit_and 4 x ≡ 4 * (x / 4 % 2)
and_four x = omega (
  arith,
  bit_and_step 4 x,
  bit_and_step 2 (x / 2),
  bit_and_step 1 (x / 2 / 2),
  zero-bit_and (x / 2 / 2 / 2),
)

and_three : (x : ℕ) → bit_and 3 x ≡ x % 4
and_three x = omega (arith, bit_and_step 3 x, bit_and_step 1 (x / 2), zero-bit_and (x / 2 / 2))

and_not_four :
    (x : ℕ)
    → x < 2 ^ 32
    → let y = bit_and x (2 ^ 32 - 1 - 4) in (y / 4 % 2 ≡ 0) × (y % 4 ≡ x % 4) × (y / 8 ≡ x / 8)
and_not_four x h = omega (
  arith,
  bit_and_step x (2 ^ 32 - 1 - 4),
  bit_and_step (x / 2) (2 ^ 31 - 1 - 2),
  bit_and_step (x / 2 / 2) (2 ^ 30 - 1 - 1),
  bit_and_ones 29 (x / 2 / 2 / 2) (omega arith),
)

off_on : (x : ℕ) → x < 2 ^ 32 → x / 4 % 2 ≡ 0 → bit_and (bit_or x 4) (2 ^ 32 - 1 - 4) ≡ x
off_on x h off = omega (arith, or_four x, and_not_four (bit_or x 4) (omega (arith, or_four x)))

and_three_right : (x : ℕ) → bit_and x 3 ≡ x % 4
and_three_right x =
    omega (arith, bit_and_step x 3, bit_and_step (x / 2) 1, bit_and-zero (x / 2 / 2))

-- The flags of an event: does it want to write, what does it want to read, and the rest.
abbrev pub wants_write : PollerEvent → ℕ
wants_write e = e.event / 4 % 2

abbrev pub read_flags : PollerEvent → ℕ
read_flags e = e.event % 4

abbrev pub other_flags : PollerEvent → ℕ
other_flags e = e.event / 8

-- `EnableWrite` sets EPOLLOUT and changes no other flag.
pub enable_write_lem :
    (e : PollerEvent)
    → (wants_write (enable_write e) ≡ 1)
      × (read_flags (enable_write e) ≡ read_flags e)
      × (other_flags (enable_write e) ≡ other_flags e)
unfolding enable_write
enable_write_lem e = or_four e.event

-- `DisableWrite` clears EPOLLOUT and changes no other flag.
pub disable_write_lem :
    (e : PollerEvent)
    → e.event < 2 ^ 32
    → (wants_write (disable_write e) ≡ 0)
      × (read_flags (disable_write e) ≡ read_flags e)
      × (other_flags (disable_write e) ≡ other_flags e)
unfolding disable_write
disable_write_lem e h = and_not_four e.event h

-- Enabling and then disabling gives back an event that did not want to write.
pub disable_write-enable_write :
    (e : PollerEvent) → e.event < 2 ^ 32 → wants_write e ≡ 0 → disable_write (enable_write e) ≡ e
unfolding disable_write enable_write
disable_write-enable_write e h off = ap (λ x. record e { event = x }) (off_on e.event h off)

-- The readable test is true exactly if EPOLLIN or EPOLLPRI was returned, the writable one exactly
-- if EPOLLOUT was; a hang-up is a close only if there is nothing to read.
pub valatile_tests :
    (e : PollerEvent)
    → ((valatile_read_event e ≡ true) ↔ (e.valatile % 4 ≢ 0))
      × ((valatile_write_event e ≡ true) ↔ (e.valatile / 4 % 2 ≡ 1))
      × (valatile_close_event e ≡ true → valatile_read_event e ≡ false)
unfolding valatile_read_event valatile_write_event valatile_close_event
valatile_tests e =
    ground (arith, and_three e.valatile, and_three_right e.valatile, and_four e.valatile)
