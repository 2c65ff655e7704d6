-- ===== src/Raft/Options/Split.antt =====
-- `split` of floyd/src/floyd_options.cc reads a list of members back.
use moxie_simple.Base.{
  ℕ, zero, suc, ◌<◌, ◌≤◌, ◌≡◌, ◌≢◌, refl, ap, ◌∙◌, List, [], ◌∷◌, ◌++◌, append-nil, true, arith,
  length, length-append, not, ◌||◌,
}
use moxie_simple.Raft.Options.{find_first_not_of, find, token, is_npos, split_loop, split}

-- The members with a delimiter between each two of them.
unfoldable pub join : ℕ → List (List ℕ) → List ℕ
join delim [] = []
join delim (m ∷ []) = m
join delim (m ∷ m' ∷ members) = m ++ (delim ∷ join delim (m' ∷ members))

abbrev pub Lacks : ℕ → List ℕ → Type 0
Lacks delim [] = Unit {0}
Lacks delim (c ∷ rest) = (c ≢ delim) × Lacks delim rest

-- Members that are not empty and contain no delimiter.
abbrev pub AreMembers : ℕ → List (List ℕ) → Type 0
AreMembers delim [] = Unit {0}
AreMembers delim (m ∷ members) = (0 < length m) × Lacks delim m × AreMembers delim members

token-append : (delim : ℕ) (m rest : List ℕ) → Lacks delim m → token delim (m ++ (delim ∷ rest)) ≡ m
unfolding token
token-append delim [] rest none_in = ground arith
token-append delim (c ∷ m) rest (other, none_in) = ground (arith, token-append delim m rest none_in)

token_all : (delim : ℕ) (m : List ℕ) → Lacks delim m → token delim m ≡ m
unfolding token
token_all delim [] none_in = refl
token_all delim (c ∷ m) (other, none_in) = ground (arith, token_all delim m none_in)

find-append :
    (delim : ℕ) (m rest : List ℕ) → Lacks delim m → find delim (m ++ (delim ∷ rest)) ≡ delim ∷ rest
unfolding find
find-append delim [] rest none_in = ground arith
find-append delim (c ∷ m) rest (other, none_in) = ground (arith, find-append delim m rest none_in)

find_nowhere : (delim : ℕ) (m : List ℕ) → Lacks delim m → find delim m ≡ []
unfolding find
find_nowhere delim [] none_in = refl
find_nowhere delim (c ∷ m) (other, none_in) = ground (arith, find_nowhere delim m none_in)

skip_none :
    (delim : ℕ) (m rest : List ℕ)
    → 0 < length m
    → Lacks delim m
    → find_first_not_of delim (m ++ rest) ≡ m ++ rest
unfolding find_first_not_of
skip_none delim [] rest some_char none_in = absurd (omega (arith, some_char))
skip_none delim (c ∷ m) rest some_char (other, none_in) = ground arith

skip_delim :
    (delim : ℕ) (rest : List ℕ)
    → find_first_not_of delim (delim ∷ rest) ≡ find_first_not_of delim rest
unfolding find_first_not_of
skip_delim delim rest = ground arith

split_loop-done : (delim fuel : ℕ) → split_loop delim fuel [] [] ≡ []
unfolding split_loop
split_loop-done delim zero = refl
split_loop-done delim (suc fuel) = refl

not_npos :
    (m rest pos : List ℕ) → 0 < length m → (not (is_npos (m ++ rest)) || not (is_npos pos)) ≡ true
not_npos [] rest pos some_char = absurd (omega (arith, some_char))
not_npos (c ∷ m) rest pos some_char = refl

skip_join :
    (delim : ℕ) (m : List ℕ) (members : List (List ℕ))
    → AreMembers delim (m ∷ members)
    → find_first_not_of delim (join delim (m ∷ members)) ≡ join delim (m ∷ members)
unfolding join
skip_join delim m [] (some_char, none_in, more) =
    rw (← append-nil m) (skip_none delim m [] some_char none_in)
skip_join delim m (m' ∷ members) (some_char, none_in, more) =
    skip_none delim m (delim ∷ join delim (m' ∷ members)) some_char none_in

-- One round, on a token that ends at a delimiter or with the string.
split_loop-round :
    (delim fuel : ℕ) (m rest pos : List ℕ)
    → 0 < length m
    → split_loop delim (suc fuel) (m ++ rest) pos
      ≡ token delim (m ++ rest)
        ∷ split_loop delim fuel
            (find_first_not_of delim pos)
            (find delim (find_first_not_of delim pos))
unfolding split_loop
split_loop-round delim fuel m rest pos some_char = rw (not_npos m rest pos some_char) refl

split_loop-last :
    (delim fuel : ℕ) (m : List ℕ)
    → 0 < length m
    → Lacks delim m
    → split_loop delim (suc fuel) m [] ≡ m ∷ []
unfolding find_first_not_of find
split_loop-last delim fuel m some_char none_in =
    rw append-nil at (split_loop-round delim fuel m [] [] some_char)
    ∙ rw (token_all delim m none_in, split_loop-done delim fuel) refl

split_loop-join :
    (delim fuel : ℕ) (m : List ℕ) (members : List (List ℕ))
    → AreMembers delim (m ∷ members)
    → length members < fuel
    → split_loop delim fuel (join delim (m ∷ members)) (find delim (join delim (m ∷ members)))
      ≡ m ∷ members
unfolding join
split_loop-join delim zero m members are enough = absurd (omega arith)
split_loop-join delim (suc fuel) m [] (some_char, none_in, more) enough =
    rw (find_nowhere delim m none_in) (split_loop-last delim fuel m some_char none_in)
split_loop-join delim (suc fuel) m (m' ∷ members) (some_char, none_in, more) enough =
    let rest = join delim (m' ∷ members) in
    rw (find-append delim m rest none_in) (
      split_loop-round delim fuel m (delim ∷ rest) (delim ∷ rest) some_char
      ∙ rw
          (
            token-append delim m rest none_in,
            skip_delim delim rest,
            skip_join delim m' members more,
          )
          (ap (◌∷◌ m) (split_loop-join delim fuel m' members more (omega arith))))

length-join :
    (delim : ℕ) (members : List (List ℕ))
    → AreMembers delim members
    → length members ≤ length (join delim members)
unfolding join
length-join delim [] are = omega arith
length-join delim ([] ∷ members) (some_char, none_in, more) = absurd (omega (arith, some_char))
length-join delim ((c ∷ m) ∷ []) (some_char, none_in, more) = omega arith
length-join delim ((c ∷ m) ∷ m' ∷ members) (some_char, none_in, more) = omega (
  arith,
  length-append m (delim ∷ join delim (m' ∷ members)),
  length-join delim (m' ∷ members) more,
)

-- `split` of the members with a delimiter between each two gives the members, if none is empty or
-- contains the delimiter.
pub split-join :
    (delim : ℕ) (members : List (List ℕ))
    → AreMembers delim members
    → split (join delim members) delim ≡ members
unfolding split
split-join delim [] are = unfold join find_first_not_of find in split_loop-done delim 1
split-join delim (m ∷ members) are = rw (skip_join delim m members are) (
    split_loop-join delim (suc (length (join delim (m ∷ members)))) m members are
      (omega (arith, length-join delim (m ∷ members) are)))
