-- ===== src/Redis/Text.antt =====
-- The C and C++ library's text functions that the protocol code calls: `atoi` and
-- `std::to_string`. An `int` is the 32-bit pattern of its two's complement.
use Prim.Native.Char.{code}
use Prim.Native.String.{String}
use moxie_simple.Base.{
  ℕ, zero, suc, ◌+◌, ◌-◌, ◌*◌, ◌/◌, ◌%◌, ◌^◌, ◌≤◌, ◌<◌, min, ◌≡◌, refl, ◌∙◌, List, [], ◌∷◌, ◌++◌,
  Bool, true, false, ◌&&◌, ◌||◌, arith, ltb, leb, ◌==◌, if◌then◌else◌, lt→ltb, ge→ltb, dec_lt, sym,
  subst,
}

-- The code points of a text, which are its bytes where it is ASCII.
abbrev pub codes : String → List ℕ
codes String.[] = []
codes (String.◌∷◌ c s) = code c ∷ codes s

abbrev pub int_mod : ℕ
int_mod = 2 ^ 32

-- -1.
abbrev pub minus_one : ℕ
minus_one = 2 ^ 32 - 1

-- `x < 0` of an `int`.
abbrev pub is_negative : ℕ → Bool
is_negative x = leb (2 ^ 31) x

-- An `int` converted to a 64-bit type, signed or not: its sign is extended.
unfoldable pub int_to_size : ℕ → ℕ
int_to_size x = if is_negative x then x + (2 ^ 64 - 2 ^ 32) else x

unfoldable pub is_digit : ℕ → Bool
is_digit c = leb b'0' c && leb c b'9'

unfoldable pub is_space : ℕ → Bool
is_space c = c == b' ' || (leb 9 c && leb c 13)

unfoldable pub skip_space : List ℕ → List ℕ
unfolding is_space
skip_space [] = []
skip_space (c ∷ s) = if is_space c then skip_space s else c ∷ s

-- The number that the digits at the front of the text continue.
unfoldable pub digits_value : ℕ → List ℕ → ℕ
unfolding is_digit
digits_value acc [] = acc
digits_value acc (c ∷ s) = if is_digit c then digits_value (acc * 10 + (c - b'0')) s else acc

-- `strtol` in base 10 clamps to `long`; the cast to `int` keeps the low 32 bits.
unfoldable pub signed_value : List ℕ → ℕ
unfolding digits_value
signed_value [] = 0
signed_value (c ∷ s) =
    if c == b'-'
    then (2 ^ 64 - min (digits_value 0 s) (2 ^ 63)) % int_mod
    else min (if c == b'+' then digits_value 0 s else digits_value 0 (c ∷ s)) (2 ^ 63 - 1) % int_mod

unfoldable pub atoi : List ℕ → ℕ
unfolding signed_value skip_space
atoi s = signed_value (skip_space s)

-- Decimal digits; the fuel is any number above `n`.
unfoldable pub decimal : ℕ → ℕ → List ℕ
decimal zero n = []
decimal (suc fuel) n = elim (ltb n 10) [
  | true ↦ (b'0' + n) ∷ []
  | false ↦ decimal fuel (n / 10) ++ (b'0' + n % 10) ∷ []
]

-- `std::to_string`.
unfoldable pub to_string : ℕ → List ℕ
unfolding decimal
to_string n = decimal (suc n) n

abbrev pub AllDigits : List ℕ → Type 0
AllDigits [] = Unit {0}
AllDigits (c ∷ s) = (b'0' ≤ c) × (c ≤ b'9') × AllDigits s

AllDigits-append : (s t : List ℕ) → AllDigits s → AllDigits t → AllDigits (s ++ t)
AllDigits-append [] t h k = k
AllDigits-append (c ∷ s) t h k = (h.0, h.1, AllDigits-append s t h.2 k)

digits_value-append :
    (acc : ℕ) (s t : List ℕ)
    → AllDigits s
    → digits_value acc (s ++ t) ≡ digits_value (digits_value acc s) t
unfolding digits_value
digits_value-append acc [] t h = refl
digits_value-append acc (c ∷ s) t h =
    ground (arith, digits_value-append (acc * 10 + (c - b'0')) s t h.2)

decimal_small : (fuel n : ℕ) → n < 10 → decimal (suc fuel) n ≡ (b'0' + n) ∷ []
unfolding decimal
decimal_small fuel n h = rw (lt→ltb n 10 h, decimal)

decimal_large :
    (fuel n : ℕ) → 10 ≤ n → decimal (suc fuel) n ≡ decimal fuel (n / 10) ++ (b'0' + n % 10) ∷ []
unfolding decimal
decimal_large fuel n h = rw (ge→ltb n 10 h, decimal)

decimal-AllDigits : (fuel n : ℕ) → AllDigits (decimal fuel n)
decimal-AllDigits zero n = unfold decimal in tt
decimal-AllDigits (suc fuel) n = elim (dec_lt n 10) [
  | yes small ↦ subst AllDigits (sym (decimal_small fuel n small)) (omega arith)
  | no large ↦
      subst AllDigits (sym (decimal_large fuel n (omega arith)))
        (AllDigits-append (decimal fuel (n / 10)) _ (decimal-AllDigits fuel (n / 10)) (omega arith))
]

digits_value_one : (acc d : ℕ) → d < 10 → digits_value acc ((b'0' + d) ∷ []) ≡ acc * 10 + d
unfolding digits_value
digits_value_one acc d h = ground arith

decimal_value : (fuel n : ℕ) → n < fuel → digits_value 0 (decimal fuel n) ≡ n
decimal_value zero n h = absurd (omega arith)
decimal_value (suc fuel) n h = elim (dec_lt n 10) [
  | yes small ↦ rw (decimal_small fuel n small, digits_value_one 0 n small) (omega arith)
  | no large ↦
      rw
        (
          decimal_large fuel n (omega arith),
          digits_value-append 0 (decimal fuel (n / 10)) ((b'0' + n % 10) ∷ [])
              (decimal-AllDigits fuel (n / 10)),
          decimal_value fuel (n / 10) (omega arith),
          digits_value_one (n / 10) (n % 10) (omega arith),
        )
        (omega arith)
]

pub to_string-AllDigits : (n : ℕ) → AllDigits (to_string n)
unfolding to_string
to_string-AllDigits n = decimal-AllDigits (suc n) n

atoi-AllDigits : (s : List ℕ) → AllDigits s → digits_value 0 s < 2 ^ 31 → atoi s ≡ digits_value 0 s
unfolding atoi
atoi-AllDigits [] a h = refl
atoi-AllDigits (c ∷ s) a h = ground arith

-- What `to_string` prints `atoi` reads back, for a number in the range of `int`.
pub atoi-to_string : (n : ℕ) → n < 2 ^ 31 → atoi (to_string n) ≡ n
atoi-to_string n h =
    let value : digits_value 0 (to_string n) ≡ n =
      unfold to_string in decimal_value (suc n) n (omega arith) in
    atoi-AllDigits (to_string n) (to_string-AllDigits n) (omega (arith, value)) ∙ value
