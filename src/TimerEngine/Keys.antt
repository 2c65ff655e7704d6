-- ===== src/TimerEngine/Keys.antt =====
-- The set `timers_` of base/TimerEngine.h by its members, and the map with one entry changed.
use moxie_simple.Base.{ℕ, ◌≡◌, ◌≢◌, refl, List, [], ◌∷◌, true, false, not, ◌&&◌, ◌||◌, arith, ◌⊎◌}
use moxie_simple.TimerEngine.{Key, same_key, has, insert, erase}

pub same_key_lem : (t u p q : ℕ) → same_key (t, p) (u, q) ≡ true → (t ≡ u) × (p ≡ q)
unfolding same_key
same_key_lem t u p q h = ground arith

pub other_timer : (t u p q : ℕ) → p ≢ q → same_key (t, p) (u, q) ≡ false
unfolding same_key
other_timer t u p q h = ground arith

pub has-insert :
    (key added : Key) (keys : List Key)
    → has key (insert added keys) ≡ same_key added key || has key keys
unfolding has insert same_key
has-insert key added [] = refl
has-insert (t, p) (u, q) ((v, r) ∷ keys) = ground (arith, has-insert (t, p) (u, q) keys)

pub has-erase :
    (key gone : Key) (keys : List Key)
    → has key (erase gone keys) ≡ not (same_key gone key) && has key keys
unfolding has erase same_key
has-erase key gone [] = ground arith
has-erase (t, p) (u, q) ((v, r) ∷ keys) = ground (arith, has-erase (t, p) (u, q) keys)

pub erased :
    (key gone : Key) (keys : List Key)
    → has key (erase gone keys) ≡ true
    → (has key keys ≡ true) × (same_key gone key ≡ false)
erased key gone keys h = ground (arith, has-erase key gone keys)

pub kept :
    (key gone : Key) (keys : List Key)
    → has key keys ≡ true
    → same_key gone key ≡ false
    → has key (erase gone keys) ≡ true
kept key gone keys h other = ground (arith, has-erase key gone keys)

pub inserted :
    (key added : Key) (keys : List Key)
    → has key (insert added keys) ≡ true
    → (same_key added key ≡ true) ⊎ (has key keys ≡ true)
inserted key added keys h = ground (arith, has-insert key added keys)

pub kept-insert :
    (key added : Key) (keys : List Key) → has key keys ≡ true → has key (insert added keys) ≡ true
kept-insert key added keys h = ground (arith, has-insert key added keys)

pub same_key_refl : (t p : ℕ) → same_key (t, p) (t, p) ≡ true
unfolding same_key
same_key_refl t p = ground arith

pub there-insert : (t p : ℕ) (keys : List Key) → has (t, p) (insert (t, p) keys) ≡ true
there-insert t p keys = ground (arith, has-insert (t, p) (t, p) keys, same_key_refl t p)
