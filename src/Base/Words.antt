-- ===== src/Base/Words.antt =====
-- `size_t` arithmetic on a 64-bit machine.
use Prim.Native.Nat.{ℕ, ◌+◌, ◌-◌, ◌%◌, ◌^◌, ◌≤◌, ◌<◌}
use mathlib.Core.Path.{◌≡◌}
use native.Mathlib.Omega.{arith}

abbrev pub size_mod : ℕ
size_mod = 2 ^ 64

unfoldable pub size_add : ℕ → ℕ → ℕ
size_add a b = (a + b) % size_mod

unfoldable pub size_sub : ℕ → ℕ → ℕ
size_sub a b = (a + size_mod - b) % size_mod

pub size_add_lem : (a b : ℕ) → a + b < size_mod → size_add a b ≡ a + b
unfolding size_add
size_add_lem a b h = omega arith

pub size_sub_lem : (a b : ℕ) → b ≤ a → a < size_mod → size_sub a b ≡ a - b
unfolding size_sub
size_sub_lem a b h k = omega arith
