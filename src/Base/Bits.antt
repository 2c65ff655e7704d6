-- ===== src/Base/Bits.antt =====
-- Laws of `bit_and` and `bit_or` by their lowest digit.
use Prim.Native.Nat.{min, max, digits, bit_and-bitwise, bit_or-bitwise}
use native.Mathlib.Nat.{pow-suc, one-le-pow}
use moxie_simple.Base.{
  ℕ, zero, suc, ◌+◌, ◌-◌, ◌*◌, ◌/◌, ◌%◌, ◌^◌, ◌≤◌, ◌<◌, ap, ◌≡◌, refl, arith, bit_and, bit_or, ◌∙◌,
  sym,
}

-- Both operations combine two numbers digit by digit. `exhausted` is the value where the first
-- number has no more digits, and `pair` works on one digit of each.
module _ (exhausted : ℕ → ℕ) (pair : ℕ → ℕ → ℕ) where
  -- The count of steps does not matter once every digit of the first number has its step.
  steps_irrelevant :
      (few many x y : ℕ)
      → x ≤ few
      → few ≤ many
      → digits exhausted pair many x y ≡ digits exhausted pair few x y
  steps_irrelevant zero zero x y covered more = refl
  steps_irrelevant zero (suc many) zero y covered more = refl
  steps_irrelevant zero (suc many) (suc x) y covered more = absurd (omega arith)
  steps_irrelevant (suc few) zero x y covered more = absurd (omega arith)
  steps_irrelevant (suc few) (suc many) zero y covered more = refl
  steps_irrelevant (suc few) (suc many) (suc x) y covered more =
      ap (λ high. high * 2 + pair (suc x % 2) (y % 2))
        (steps_irrelevant few many (suc x / 2) (y / 2) (omega arith) (omega arith))

  lowest_digit :
      (x y : ℕ)
      → digits exhausted pair (suc x) (suc x) y
        ≡ digits exhausted pair (suc x / 2) (suc x / 2) (y / 2) * 2 + pair (suc x % 2) (y % 2)
  lowest_digit x y =
      ap (λ high. high * 2 + pair (suc x % 2) (y % 2))
        (steps_irrelevant (suc x / 2) x (suc x / 2) (y / 2) (omega arith) (omega arith))

pub zero-bit_and : (y : ℕ) → bit_and 0 y ≡ 0
zero-bit_and = bit_and-bitwise 0

pub bit_and_step : (x y : ℕ) → bit_and x y ≡ bit_and (x / 2) (y / 2) * 2 + min (x % 2) (y % 2)
bit_and_step zero y = omega (arith, zero-bit_and y, zero-bit_and (y / 2))
bit_and_step (suc x) y =
    bit_and-bitwise (suc x) y
    ∙ lowest_digit (λ y. zero) min x y
    ∙ sym (ap (λ high. high * 2 + min (suc x % 2) (y % 2)) (bit_and-bitwise (suc x / 2) (y / 2)))

pub zero-bit_or : (y : ℕ) → bit_or 0 y ≡ y
zero-bit_or = bit_or-bitwise 0

pub bit_or_step : (x y : ℕ) → bit_or x y ≡ bit_or (x / 2) (y / 2) * 2 + max (x % 2) (y % 2)
bit_or_step zero y = omega (arith, zero-bit_or y, zero-bit_or (y / 2))
bit_or_step (suc x) y =
    bit_or-bitwise (suc x) y
    ∙ lowest_digit (λ y. y) max x y
    ∙ sym (ap (λ high. high * 2 + max (suc x % 2) (y % 2)) (bit_or-bitwise (suc x / 2) (y / 2)))

-- With a second number that is zero, by a bound on the first.
zero_mask : (bound x : ℕ) → x ≤ bound → (bit_and x 0 ≡ 0) × (bit_or x 0 ≡ x)
zero_mask zero x small = ground (arith, zero-bit_and 0, zero-bit_or 0)
zero_mask (suc bound) x small =
    let (no_bit, all_bits) = zero_mask bound (x / 2) (omega arith) in
    (omega (arith, bit_and_step x 0, no_bit), omega (arith, bit_or_step x 0, all_bits))

pub bit_and-zero : (x : ℕ) → bit_and x 0 ≡ 0
bit_and-zero x = (zero_mask x x (omega arith)).0

pub bit_or-zero : (x : ℕ) → bit_or x 0 ≡ x
bit_or-zero x = (zero_mask x x (omega arith)).1

ones_half : (half power : ℕ) → power ≡ half * 2 → 0 < half → (power - 1) / 2 ≡ half - 1
ones_half half power e some_left = omega arith

-- A mask of `width` ones keeps a number of `width` bits.
pub bit_and_ones : (width x : ℕ) → x < 2 ^ width → bit_and x (2 ^ width - 1) ≡ x
bit_and_ones zero x fits = omega (arith, bit_and-zero x)
bit_and_ones (suc width) x fits = omega (
  arith,
  pow-suc 2 width,
  one-le-pow width 2 (omega arith),
  bit_and_step x (2 ^ suc width - 1),
  ap (bit_and (x / 2))
      (ones_half (2 ^ width) (2 ^ suc width) (pow-suc 2 width) (one-le-pow width 2 (omega arith))),
  bit_and_ones width (x / 2) (omega (arith, pow-suc 2 width)),
)
