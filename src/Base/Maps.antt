-- ===== src/Base/Maps.antt =====
-- Maps from numbers, as functions.
use Prim.Native.Nat.{ℕ}
use mathlib.Core.Path.{◌≡◌, refl}
use mathlib.Core.Logic.{◌≢◌}
use mathlib.Core.Option.{Option}
use moxie_simple.Base.Tests.{◌==◌, if◌then◌else◌, eq→==, ne→==}

-- A map with one entry changed.
unfoldable pub update : {A : Type 0} → (ℕ → Option A) → ℕ → Option A → ℕ → Option A
update m p x q = if q == p then x else m q

pub update_same : {A : Type 0} (m : ℕ → Option A) (p : ℕ) (x : Option A) → update m p x p ≡ x
unfolding update
update_same m p x = rw (eq→== p p refl)

pub update_other :
    {A : Type 0} (m : ℕ → Option A) (p q : ℕ) (x : Option A) → q ≢ p → update m p x q ≡ m q
unfolding update
update_other m p q x other = rw (ne→== q p other)
