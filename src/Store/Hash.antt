-- ===== src/Store/Hash.antt =====
-- `BKDRHash` of third/mcached/Mcached.cpp against the polynomial that it evaluates modulo 2^64.
use moxie_simple.Base.{
  ℕ, ◌+◌, ◌*◌, ◌%◌, ◌^◌, ◌≡◌, ◌≢◌, refl, List, [], ◌∷◌, ◌++◌, arith, ne→==, ◌∙◌,
}
use moxie_simple.Store.{hash_from, bkdr_hash, char_to_size}

-- The polynomial in 131 whose coefficients are the characters, with no modulus.
abbrev pub polynomial : ℕ → List ℕ → ℕ
polynomial acc [] = acc
polynomial acc (c ∷ str) = polynomial (acc * 131 + char_to_size c) str

abbrev pub NoZero : List ℕ → Type 0
NoZero [] = Unit {0}
NoZero (c ∷ str) = (c ≢ 0) × NoZero str

hash_from-zero : (hash : ℕ) (rest : List ℕ) → hash_from hash (0 ∷ rest) ≡ hash
unfolding hash_from
hash_from-zero hash rest = refl

hash_from-cons :
    (hash c : ℕ) (str : List ℕ)
    → c ≢ 0
    → hash_from hash (c ∷ str) ≡ hash_from ((hash * 131 + char_to_size c) % 2 ^ 64) str
unfolding hash_from
hash_from-cons hash c str z = rw (ne→== c 0 z)

hash_from-polynomial :
    (acc hash : ℕ) (str rest : List ℕ)
    → hash ≡ acc % 2 ^ 64
    → NoZero str
    → hash_from hash (str ++ 0 ∷ rest) ≡ polynomial acc str % 2 ^ 64
hash_from-polynomial acc hash [] rest e z = hash_from-zero hash rest ∙ e
hash_from-polynomial acc hash (c ∷ str) rest e z =
    hash_from-cons hash c (str ++ 0 ∷ rest) z.0
    ∙ hash_from-polynomial (acc * 131 + char_to_size c) ((hash * 131 + char_to_size c) % 2 ^ 64) str
        rest (omega (arith, e)) z.1

-- The hash of a C string is its polynomial modulo 2^64, whatever stands behind the zero byte.
pub bkdr_hash-polynomial :
    (str rest : List ℕ) → NoZero str → bkdr_hash (str ++ 0 ∷ rest) ≡ polynomial 0 str % 2 ^ 64
unfolding bkdr_hash
bkdr_hash-polynomial str rest z = hash_from-polynomial 0 0 str rest refl z
