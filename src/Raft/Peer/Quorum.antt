-- ===== src/Raft/Peer/Quorum.antt =====
-- `QuorumMatchIndex` of floyd/src/floyd_peer_thread.cc against majorities.
use moxie_simple.Base.{
  ℕ, zero, suc, ◌+◌, ◌*◌, ◌/◌, ◌<◌, ◌≤◌, ◌≡◌, ◌↔◌, refl, List, [], ◌∷◌, some, arith, leb,
  if◌then◌else◌, length, get_elem?, Bool-cases, inl, inr, ge→ltb, leb→le, leb→gt,
}
use moxie_simple.Raft.Peer.{insert_sorted, sort, quorum_match_index}

-- How many of the indices reach at least to `i`.
abbrev pub reaching : ℕ → List ℕ → ℕ
reaching i [] = 0
reaching i (x ∷ xs) = (if leb i x then 1 else 0) + reaching i xs

reaching-insert_sorted :
    (i x : ℕ) (xs : List ℕ) → reaching i (insert_sorted x xs) ≡ reaching i (x ∷ xs)
unfolding insert_sorted
reaching-insert_sorted i x [] = refl
reaching-insert_sorted i x (y ∷ ys) = ground (arith, reaching-insert_sorted i x ys)

reaching-sort : (i : ℕ) (xs : List ℕ) → reaching i (sort xs) ≡ reaching i xs
unfolding sort
reaching-sort i [] = refl
reaching-sort i (x ∷ xs) = omega (arith, reaching-insert_sorted i x (sort xs), reaching-sort i xs)

length-insert_sorted : (x : ℕ) (xs : List ℕ) → length (insert_sorted x xs) ≡ suc (length xs)
unfolding insert_sorted
length-insert_sorted x [] = refl
length-insert_sorted x (y ∷ ys) = ground (arith, length-insert_sorted x ys)

length-sort : (xs : List ℕ) → length (sort xs) ≡ length xs
unfolding sort
length-sort [] = refl
length-sort (x ∷ xs) = omega (arith, length-insert_sorted x (sort xs), length-sort xs)

abbrev IsSorted : List ℕ → Type 0
IsSorted [] = Unit {0}
IsSorted (x ∷ []) = Unit {0}
IsSorted (x ∷ y ∷ xs) = (x ≤ y) × IsSorted (y ∷ xs)

insert_sorted-IsSorted : (x : ℕ) (xs : List ℕ) → IsSorted xs → IsSorted (insert_sorted x xs)
unfolding insert_sorted
insert_sorted-IsSorted x [] h = tt
insert_sorted-IsSorted x (y ∷ []) h = ground arith
insert_sorted-IsSorted x (y ∷ z ∷ ys) h = ground (arith, insert_sorted-IsSorted x (z ∷ ys) h.1)

sort-IsSorted : (xs : List ℕ) → IsSorted (sort xs)
unfolding sort
sort-IsSorted [] = tt
sort-IsSorted (x ∷ xs) = insert_sorted-IsSorted x (sort xs) (sort-IsSorted xs)

all_reaching : (i x : ℕ) (xs : List ℕ) → IsSorted (x ∷ xs) → i ≤ x → reaching i xs ≡ length xs
all_reaching i x [] h reach = refl
all_reaching i x (y ∷ ys) h reach =
    ground (arith, all_reaching i y ys h.1 (omega (arith, h.0, reach)))

reaching_most : (i : ℕ) (xs : List ℕ) → reaching i xs ≤ length xs
reaching_most i [] = omega arith
reaching_most i (x ∷ xs) = ground (arith, reaching_most i xs)

-- In a sorted list the values from a position on reach to what the one at that position reaches,
-- and if that one does not reach, then none up to it does.
at_position :
    (i k q : ℕ) (xs : List ℕ)
    → IsSorted xs
    → get_elem? xs k ≡ some q
    → (i ≤ q → length xs ≤ reaching i xs + k) × (q < i → reaching i xs + k < length xs)
at_position i k q [] h e = absurd cc
at_position i zero q (x ∷ xs) h e =
    let same : x ≡ q = cc in
    (
      λ reach. ground (arith, all_reaching i x xs h (omega (arith, same, reach))),
      λ short. ground (arith, reaching_most i xs),
    )
at_position i (suc k) q (x ∷ []) h e = absurd cc
at_position i (suc k) q (x ∷ y ∷ ys) h e =
    let (from, to) = at_position i k q (y ∷ ys) h.1 e in
    (
      λ reach. (let r = from reach in ground arith),
      λ short. (let r = to short in let first : x ≤ q = first_least x y ys k q h e in ground arith),
    )
  where
    first_least :
        (x y : ℕ) (ys : List ℕ) (k q : ℕ)
        → IsSorted (x ∷ y ∷ ys)
        → get_elem? (y ∷ ys) k ≡ some q
        → x ≤ q
    first_least x y ys zero q h e = let same : y ≡ q = cc in omega (arith, same, h.0)
    first_least x y [] (suc k) q h e = absurd cc
    first_least x y (z ∷ ys) (suc k) q h e = omega (arith, h.0, first_least y z ys k q h.1 e)

found_at : (xs : List ℕ) (k : ℕ) → k < length xs → (q : ℕ) × (get_elem? xs k ≡ some q)
found_at [] k h = absurd (omega arith)
found_at (x ∷ xs) zero h = (x, refl)
found_at (x ∷ xs) (suc k) h = found_at xs k (omega arith)

pub quorum_match_index-majority :
    (values : List ℕ)
    → 4 ≤ length values
    → (q : ℕ) × (quorum_match_index values ≡ some q)
      × ((i : ℕ) → (i ≤ q) ↔ (length values + 1 < 2 * (reaching i values + 1)))
unfolding quorum_match_index
quorum_match_index-majority values four =
    let (q, e) =
      found_at (sort values) (length values / 2) (omega (arith, four, length-sort values)) in
    (
      q,
      rw (quorum_match_index, ge→ltb (length values) 4 four) e,
      λ i.
          (let (from, to) =
              at_position i (length values / 2) q (sort values) (sort-IsSorted values) e in
            (
              λ reach. (omega (arith, from reach, length-sort values, reaching-sort i values)),
              λ most.
                  majority i q values (reaching i (sort values)) most to (reaching-sort i values)
                    (length-sort values),
            )),
    )
  where
    majority :
        (i q : ℕ) (values : List ℕ) (r : ℕ)
        → length values + 1 < 2 * (reaching i values + 1)
        → (q < i → r + length values / 2 < length (sort values))
        → r ≡ reaching i values
        → length (sort values) ≡ length values
        → i ≤ q
    majority i q values r most to same len = elim (Bool-cases (leb i q)) [
      | inl yes_it_is ↦ leb→le i q yes_it_is
      | inr no_it_is ↦ absurd (omega (arith, most, same, len, to (leb→gt i q no_it_is)))
    ]
