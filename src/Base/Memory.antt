-- ===== src/Base/Memory.antt =====
-- What the sources use of <algorithm> and <vector> on arrays of bytes: `std::copy` and `resize`,
-- with what they leave in a slice of the array, and `std::search`.
use Prim.Native.Nat.add
use moxie_simple.Base.{
  ℕ, zero, suc, ◌+◌, ◌-◌, ◌≤◌, ◌<◌, ◌≡◌, refl, ap, subst, List, [], ◌∷◌, ◌++◌, arith, length,
  get_or, set, take, drop, replicate, length-set, length-take, length-append, length-replicate,
  length-drop, take_all, drop-append_le, take-append_le, Bool, true, false, ◌&&◌, ◌==◌,
  if◌then◌else◌,
}

-- `std::copy(data, data + len, begin + at)`, from an array that does not overlap the target.
unfoldable pub copy_from : List ℕ → ℕ → List ℕ → List ℕ
copy_from buf at [] = buf
copy_from buf at (x ∷ xs) = copy_from (set buf at x) (suc at) xs

-- `std::copy(begin + from, begin + from + n, begin + to)` inside one array, first byte first.
unfoldable pub copy_within : ℕ → List ℕ → ℕ → ℕ → List ℕ
copy_within zero buf from to = buf
copy_within (suc n) buf from to = copy_within n (set buf to (get_or buf from 0)) (suc from) (suc to)

-- `vector<char>::resize(n)`: new entries are zero.
unfoldable pub resize : List ℕ → ℕ → List ℕ
resize buf n = take n buf ++ replicate (n - length buf) 0

pub length-copy_from :
    (buf : List ℕ) (at : ℕ) (xs : List ℕ) → length (copy_from buf at xs) ≡ length buf
unfolding copy_from
length-copy_from buf at [] = refl
length-copy_from buf at (x ∷ xs) =
    omega (arith, length-copy_from (set buf at x) (suc at) xs, length-set buf at x)

pub length-copy_within :
    (n : ℕ) (buf : List ℕ) (from to : ℕ) → length (copy_within n buf from to) ≡ length buf
unfolding copy_within
length-copy_within zero buf from to = refl
length-copy_within (suc n) buf from to = omega (
  arith,
  length-copy_within n (set buf to (get_or buf from 0)) (suc from) (suc to),
  length-set buf to (get_or buf from 0),
)

pub length-resize : (buf : List ℕ) (n : ℕ) → length (resize buf n) ≡ n
unfolding resize
length-resize buf n = omega (
  arith,
  length-append (take n buf) (replicate (n - length buf) 0),
  length-take n buf,
  length-replicate (n - length buf) (let z : ℕ = 0 in z),
)

-- The slice of `n` bytes from index `at`.
abbrev pub slice : List ℕ → ℕ → ℕ → List ℕ
slice buf at n = take n (drop at buf)

pub length-slice : (buf : List ℕ) (at n : ℕ) → at + n ≤ length buf → length (slice buf at n) ≡ n
length-slice buf at n h = omega (arith, length-take n (drop at buf), length-drop at buf)

copy_from-cons :
    (y : ℕ) (buf : List ℕ) (at : ℕ) (xs : List ℕ)
    → copy_from (y ∷ buf) (suc at) xs ≡ y ∷ copy_from buf at xs
unfolding copy_from
copy_from-cons y buf at [] = refl
copy_from-cons y buf at (x ∷ xs) = copy_from-cons y (set buf at x) (suc at) xs

take-copy_from :
    (buf xs : List ℕ) → length xs ≤ length buf → take (length xs) (copy_from buf 0 xs) ≡ xs
unfolding copy_from
take-copy_from buf [] h = refl
take-copy_from [] (x ∷ xs) h = absurd (omega arith)
take-copy_from (y ∷ buf) (x ∷ xs) h =
    rw (copy_from-cons x buf 0 xs) (ap (◌∷◌ x) (take-copy_from buf xs (omega arith)))

take-copy_from_at :
    (buf : List ℕ) (n : ℕ) (xs : List ℕ)
    → n + length xs ≤ length buf
    → take (n + length xs) (copy_from buf n xs) ≡ take n buf ++ xs
take-copy_from_at buf zero xs h = rw (add.zero (length xs)) (take-copy_from buf xs (omega arith))
take-copy_from_at [] (suc n) xs h = absurd (omega arith)
take-copy_from_at (y ∷ buf) (suc n) xs h =
    rw (add.suc n (length xs), copy_from-cons y buf n xs)
      (ap (◌∷◌ y) (take-copy_from_at buf n xs (omega arith)))

-- Bytes that are copied right behind a slice extend it.
pub slice-copy_from :
    (buf : List ℕ) (at n : ℕ) (xs : List ℕ)
    → at + n + length xs ≤ length buf
    → slice (copy_from buf (at + n) xs) at (n + length xs) ≡ slice buf at n ++ xs
slice-copy_from buf zero n xs h = rw (add.zero n) (take-copy_from_at buf n xs (omega arith))
slice-copy_from [] (suc at) n xs h = absurd (omega arith)
slice-copy_from (y ∷ buf) (suc at) n xs h =
    rw (add.suc at n, copy_from-cons y buf (at + n) xs) (slice-copy_from buf at n xs (omega arith))

-- The same, with the indices that a buffer keeps.
pub slice-copy_from_end :
    (buf : List ℕ) (from to : ℕ) (xs : List ℕ)
    → from ≤ to
    → to + length xs ≤ length buf
    → slice (copy_from buf to xs) from (to + length xs - from) ≡ slice buf from (to - from) ++ xs
slice-copy_from_end buf from to xs h room = rw size (
    subst
      (λ k.
        slice (copy_from buf k xs) from (to - from + length xs) ≡ slice buf from (to - from) ++ xs)
      end (slice-copy_from buf from (to - from) xs (omega arith)))
  where
    size : to + length xs - from ≡ to - from + length xs
    size = omega arith

    end : from + (to - from) ≡ to
    end = omega arith

copy_within-cons :
    (n y : ℕ) (buf : List ℕ) (from to : ℕ)
    → copy_within n (y ∷ buf) (suc from) (suc to) ≡ y ∷ copy_within n buf from to
unfolding copy_within
copy_within-cons zero y buf from to = refl
copy_within-cons (suc n) y buf from to =
    copy_within-cons n y (set buf to (get_or buf from 0)) (suc from) (suc to)

drop-cons : (buf : List ℕ) (i : ℕ) → i < length buf → drop i buf ≡ get_or buf i 0 ∷ drop (suc i) buf
drop-cons [] i h = absurd (omega arith)
drop-cons (x ∷ buf) zero h = refl
drop-cons (x ∷ buf) (suc i) h = drop-cons buf i (omega arith)

take-copy_within :
    (n : ℕ) (buf : List ℕ) (k : ℕ)
    → suc k + n ≤ length buf
    → take n (copy_within n buf (suc k) 0) ≡ take n (drop (suc k) buf)
unfolding copy_within
take-copy_within zero buf k h = refl
take-copy_within (suc n) [] k h = absurd (omega arith)
take-copy_within (suc n) (x ∷ buf) k h =
    rw (drop-cons buf k (omega arith), copy_within-cons n (get_or buf k 0) buf (suc k) 0)
      (ap (◌∷◌ (get_or buf k 0)) (take-copy_within n buf k (omega arith)))

slice-copy_within_offset :
    (n : ℕ) (buf : List ℕ) (to k : ℕ)
    → to + suc k + n ≤ length buf
    → slice (copy_within n buf (to + suc k) to) to n ≡ slice buf (to + suc k) n
slice-copy_within_offset n buf zero k h = rw add.zero (take-copy_within n buf k (omega arith))
slice-copy_within_offset n [] (suc to) k h = absurd (omega arith)
slice-copy_within_offset n (x ∷ buf) (suc to) k h =
    rw (add.suc to (suc k), copy_within-cons n x buf (to + suc k) to)
      (slice-copy_within_offset n buf to k (omega arith))

-- A slice that is moved towards the front arrives whole, though the two places may overlap.
pub slice-copy_within :
    (n : ℕ) (buf : List ℕ) (from to : ℕ)
    → to < from
    → from + n ≤ length buf
    → slice (copy_within n buf from to) to n ≡ slice buf from n
slice-copy_within n buf from to h fits =
    rw e at (slice-copy_within_offset n buf to (from - suc to) (omega arith))
  where
    e : to + suc (from - suc to) ≡ from
    e = omega arith

-- Growing the array leaves its slices.
pub slice-resize :
    (buf : List ℕ) (m at n : ℕ)
    → at + n ≤ length buf
    → length buf ≤ m
    → slice (resize buf m) at n ≡ slice buf at n
unfolding resize
slice-resize buf m at n h k =
    rw (take_all m buf k, drop-append_le at buf (replicate (m - length buf) 0) (omega arith))
      (take-append_le n (drop at buf) (replicate (m - length buf) 0)
        (omega (arith, length-drop at buf)))

-- Whether `pat` stands at the front of the text.
unfoldable pub starts_with : List ℕ → List ℕ → Bool
starts_with [] xs = true
starts_with (p ∷ pat) [] = false
starts_with (p ∷ pat) (x ∷ xs) = p == x && starts_with pat xs

-- `std::search(first, last, …)`: the offset of the first occurrence, or that of `last`.
unfoldable pub search : List ℕ → List ℕ → ℕ
unfolding starts_with
search [] pat = 0
search (x ∷ xs) pat = if starts_with pat (x ∷ xs) then 0 else suc (search xs pat)

pub search-le : (xs pat : List ℕ) → search xs pat ≤ length xs
unfolding search
search-le [] pat = omega arith
search-le (x ∷ xs) pat = ground (arith, search-le xs pat)
