-- ===== src/Raft/Stored/Bytes.antt =====
-- Numbers and their bytes.
use moxie_simple.Base.{
  ℕ, zero, suc, ◌+◌, ◌/◌, ◌%◌, ◌^◌, ◌<◌, ◌≡◌, refl, sym, ap, ◌∙◌, List, [], ◌∷◌, ◌++◌, some, arith,
  ltb, if◌then◌else◌, length, take_all, ge→ltb, append_assoc, Bool, true, false, ◌==◌,
}
use moxie_simple.Raft.Stored.{
  to_bytes, of_bytes, load, reverse_onto, uint_to_bit_str, bit_str_to_uint,
}

-- A number that takes no more than so many bytes.
abbrev pub IsWord : ℕ → ℕ → Type 0
IsWord zero x = x ≡ 0
IsWord (suc n) x = IsWord n (x / 256)

of_bytes-to_bytes : (n x : ℕ) → IsWord n x → of_bytes (to_bytes n x) ≡ x
unfolding of_bytes to_bytes
of_bytes-to_bytes zero x fits = sym fits
of_bytes-to_bytes (suc n) x fits = omega (arith, of_bytes-to_bytes n (x / 256) fits)

pub length-to_bytes : (n x : ℕ) → length (to_bytes n x) ≡ n
unfolding to_bytes
length-to_bytes zero x = refl
length-to_bytes (suc n) x = ap suc (length-to_bytes n (x / 256))

pub load-to_bytes : (n x : ℕ) → IsWord n x → load n (to_bytes n x) ≡ some x
unfolding load
load-to_bytes n x fits =
    rw
      (
        ge→ltb (length (to_bytes n x)) n (omega (arith, length-to_bytes n x)),
        take_all n (to_bytes n x) (omega (arith, length-to_bytes n x)),
        of_bytes-to_bytes n x fits,
      )
      refl

reverse_onto-append : (xs out : List ℕ) → reverse_onto xs out ≡ reverse_onto xs [] ++ out
unfolding reverse_onto
reverse_onto-append [] out = refl
reverse_onto-append (x ∷ xs) out =
    reverse_onto-append xs (x ∷ out)
    ∙ sym (append_assoc (reverse_onto xs []) (x ∷ []) out)
    ∙ sym (ap (λ k. k ++ out) (reverse_onto-append xs (x ∷ [])))

reverse_onto-reverse_onto :
    (xs ys out : List ℕ) → reverse_onto (reverse_onto xs ys) out ≡ reverse_onto ys (xs ++ out)
unfolding reverse_onto
reverse_onto-reverse_onto [] ys out = refl
reverse_onto-reverse_onto (x ∷ xs) ys out = reverse_onto-reverse_onto xs (x ∷ ys) out

length-reverse_onto : (xs out : List ℕ) → length (reverse_onto xs out) ≡ length xs + length out
unfolding reverse_onto
length-reverse_onto [] out = omega arith
length-reverse_onto (x ∷ xs) out = omega (arith, length-reverse_onto xs (x ∷ out))

pub length-uint_to_bit_str : (num : ℕ) → length (uint_to_bit_str num) ≡ 8
unfolding uint_to_bit_str
length-uint_to_bit_str num =
    length-reverse_onto (to_bytes 8 num) [] ∙ omega (arith, length-to_bytes 8 num)

-- `BitStrToUint` reads what `UintToBitStr` has written.
pub bit_str_to_uint-uint_to_bit_str :
    (num : ℕ) → num < 2 ^ 64 → bit_str_to_uint (uint_to_bit_str num) ≡ some num
unfolding bit_str_to_uint uint_to_bit_str reverse_onto to_bytes
bit_str_to_uint-uint_to_bit_str num fits = ap some (of_bytes-to_bytes 8 num (omega arith))

-- The order of byte strings, that of `BytewiseComparator`.
unfoldable pub lex_lt : List ℕ → List ℕ → Bool
lex_lt xs [] = false
lex_lt [] (y ∷ ys) = true
lex_lt (x ∷ xs) (y ∷ ys) = let rest = lex_lt xs ys in if x == y then rest else ltb x y

lex_lt-snoc :
    (xs ys : List ℕ) (a b : ℕ)
    → length xs ≡ length ys
    → lex_lt (xs ++ a ∷ []) (ys ++ b ∷ [])
      ≡ (if lex_lt xs ys then true else (if lex_lt ys xs then false else ltb a b))
unfolding lex_lt
lex_lt-snoc [] [] a b same = ground arith
lex_lt-snoc [] (y ∷ ys) a b same = absurd (omega (arith, same))
lex_lt-snoc (x ∷ xs) [] a b same = absurd (omega (arith, same))
lex_lt-snoc (x ∷ xs) (y ∷ ys) a b same = ground (arith, lex_lt-snoc xs ys a b (omega (arith, same)))

lex_lt-words :
    (n x y : ℕ)
    → IsWord n x
    → IsWord n y
    → lex_lt (reverse_onto (to_bytes n x) []) (reverse_onto (to_bytes n y) []) ≡ ltb x y
unfolding to_bytes reverse_onto
lex_lt-words zero x y fits fits' = unfold lex_lt in ground arith
lex_lt-words (suc n) x y fits fits' =
    rw
      (
        reverse_onto-append (to_bytes n (x / 256)) (x % 256 ∷ []),
        reverse_onto-append (to_bytes n (y / 256)) (y % 256 ∷ []),
      )
      (lex_lt-snoc (reverse_onto (to_bytes n (x / 256)) []) (reverse_onto (to_bytes n (y / 256)) [])
          (x % 256) (y % 256) same
        ∙ ground (
          arith,
          lex_lt-words n (x / 256) (y / 256) fits fits',
          lex_lt-words n (y / 256) (x / 256) fits' fits,
        ))
  where
    same :
        length (reverse_onto (to_bytes n (x / 256)) [])
        ≡ length (reverse_onto (to_bytes n (y / 256)) [])
    same = omega (
      arith,
      length-reverse_onto (to_bytes n (x / 256)) [],
      length-reverse_onto (to_bytes n (y / 256)) [],
      length-to_bytes n (x / 256),
      length-to_bytes n (y / 256),
    )

-- The keys of the log are in the order of their indices.
pub lex_lt-uint_to_bit_str :
    (m n : ℕ) → m < 2 ^ 64 → n < 2 ^ 64 → lex_lt (uint_to_bit_str m) (uint_to_bit_str n) ≡ ltb m n
unfolding uint_to_bit_str
lex_lt-uint_to_bit_str m n small small' = lex_lt-words 8 m n (omega arith) (omega arith)
