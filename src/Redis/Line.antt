-- ===== src/Redis/Line.antt =====
-- Lines that end in CRLF, on the list of readable bytes and in a buffer.
use moxie_simple.Base.{
  ℕ, ◌+◌, ◌≡◌, refl, ap, ◌∙◌, List, [], ◌∷◌, ◌++◌, Option, none, some, arith, ◌==◌, if◌then◌else◌,
  length, take, drop, size_sub, size_sub_lem, inl, inr, eq→==, ◌&&◌, Option-cases, ◌≢◌, ◌⊎◌,
  take-append_length, drop-append_length, length-append, ne→==,
}
use moxie_simple.Base.Memory.{search}
use moxie_simple.Buffer.{
  Buffer, contents, crlf, find_chars, peek, readable_bytes, retrieve, retrieve_as_string,
}
use moxie_simple.Buffer.Invariant.{IsValid, readable_bytes_lem, length-contents}
use moxie_simple.Buffer.Contents.{find_chars_lem, retrieve_lem, retrieve_as_string_lem}

abbrev prepend : ℕ → Option (List ℕ × List ℕ) → Option (List ℕ × List ℕ)
prepend x none = none
prepend x (some (line, rest)) = some (x ∷ line, rest)

-- The bytes before the first CRLF, and those behind it.
unfoldable pub next_line : List ℕ → Option (List ℕ × List ℕ)
next_line [] = none
next_line (x ∷ []) = none
next_line (x ∷ y ∷ xs) =
    if x == 13 && y == 10 then some ([], xs) else prepend x (next_line (y ∷ xs))

-- A list that has a line is that line, a CRLF and the rest.
pub next_line-split :
    (xs line rest : List ℕ) → next_line xs ≡ some (line, rest) → xs ≡ line ++ (crlf ++ rest)
unfolding next_line
next_line-split [] line rest h = cc
next_line-split (x ∷ []) line rest h = cc
next_line-split (x ∷ y ∷ xs) line rest h = elim (Option-cases (next_line (y ∷ xs))) [
  | inl e ↦ ground arith
  | inr (r, e) ↦ ground (arith, next_line-split (y ∷ xs) r.0 r.1 e)
]

pub search-line :
    (xs line rest : List ℕ) → next_line xs ≡ some (line, rest) → search xs crlf ≡ length line
unfolding next_line search
search-line [] line rest h = cc
search-line (x ∷ []) line rest h = cc
search-line (x ∷ y ∷ xs) line rest h = elim (Option-cases (next_line (y ∷ xs))) [
  | inl e ↦ ground arith
  | inr (r, e) ↦ ground (arith, search-line (y ∷ xs) r.0 r.1 e)
]

pub search-no_line : (xs : List ℕ) → next_line xs ≡ none → search xs crlf ≡ length xs
unfolding next_line search
search-no_line [] h = refl
search-no_line (x ∷ []) h = ground arith
search-no_line (x ∷ y ∷ xs) h = elim (Option-cases (next_line (y ∷ xs))) [
  | inl e ↦ ground (arith, search-no_line (y ∷ xs) e)
  | inr (r, e) ↦ ground arith
]

-- More bytes leave the first line as it is.
pub next_line-append :
    (xs ys line rest : List ℕ)
    → next_line xs ≡ some (line, rest)
    → next_line (xs ++ ys) ≡ some (line, rest ++ ys)
unfolding next_line
next_line-append [] ys line rest h = cc
next_line-append (x ∷ []) ys line rest h = cc
next_line-append (x ∷ y ∷ xs) ys line rest h = elim (Option-cases (next_line (y ∷ xs))) [
  | inl e ↦ ground arith
  | inr (r, e) ↦ ground (arith, next_line-append (y ∷ xs) ys r.0 r.1 e)
]

-- No CRLF inside.
abbrev pub NoCrlf : List ℕ → Type 0
NoCrlf [] = Unit {0}
NoCrlf (x ∷ []) = Unit {0}
NoCrlf (x ∷ y ∷ xs) = ((x ≢ 13) ⊎ (y ≢ 10)) × NoCrlf (y ∷ xs)

-- A text with no CRLF inside is a line, when a CRLF follows it.
pub next_line_of_NoCrlf :
    (line rest : List ℕ) → NoCrlf line → next_line (line ++ (crlf ++ rest)) ≡ some (line, rest)
unfolding next_line
next_line_of_NoCrlf [] rest h = refl
next_line_of_NoCrlf (x ∷ []) rest h = ground arith
next_line_of_NoCrlf (x ∷ y ∷ xs) rest h = ground (arith, next_line_of_NoCrlf (y ∷ xs) rest h.1)

-- What the parser does with a buffer that has no line yet.
pub find_chars-no_line :
    (b : Buffer) → IsValid b → next_line (contents b) ≡ none → find_chars b crlf ≡ none
find_chars-no_line b v h = rw (find_chars_lem b crlf v, eq→== _ _ (search-no_line (contents b) h))

-- And with a line: it is found, retrieved, and then the CRLF is.
pub record Lined (b : Buffer) (line rest : List ℕ) : Type 0 where
  pub pos : ℕ
  pub found : find_chars b crlf ≡ some pos
  pub after_line : Buffer
  pub line_taken : retrieve_as_string b (size_sub pos (peek b)) ≡ some (line, after_line)
  pub line_valid : IsValid after_line
  pub line_left : contents after_line ≡ crlf ++ rest
  pub after_crlf : Buffer
  pub crlf_taken : retrieve after_line 2 ≡ some after_crlf
  pub crlf_valid : IsValid after_crlf
  pub crlf_left : contents after_crlf ≡ rest

pub next_line-Lined :
    (b : Buffer) (line rest : List ℕ)
    → IsValid b
    → next_line (contents b) ≡ some (line, rest)
    → Lined b line rest
next_line-Lined b line rest v h =
    let (b₁, taken, v₁, left, same₁) =
      retrieve_as_string_lem b (length line) v (omega (arith, size)) in
    let after : contents b₁ ≡ crlf ++ rest =
      left ∙ ap (drop (length line)) split ∙ drop-append_length line (crlf ++ rest) in
    let (b₂, taken₂, v₂, left₂, same₂) =
      retrieve_lem b₁ 2 v₁ (omega (arith, ap length after, length-contents b₁ v₁)) in
    record {
      pos = peek b + length line;
      found = rw (find_chars_lem b crlf v, search-line (contents b) line rest h, ne→== _ _ short);
      after_line = b₁;
      line_taken =
          rw (offset, taken)
            (ap (λ l. some (l, b₁))
              (ap (take (length line)) split ∙ take-append_length line (crlf ++ rest)));
      line_valid = v₁;
      line_left = after;
      after_crlf = b₂;
      crlf_taken = taken₂;
      crlf_valid = v₂;
      crlf_left = left₂ ∙ ap (drop 2) after;
    }
  where
    split : contents b ≡ line ++ (crlf ++ rest)
    split = next_line-split (contents b) line rest h

    size : readable_bytes b ≡ length line + (2 + length rest)
    size = omega (arith, length-contents b v, ap length split, length-append line (crlf ++ rest))

    short : length line ≢ length (contents b)
    short = omega (arith, size, length-contents b v)

    offset : size_sub (peek b + length line) (peek b) ≡ length line
    offset =
        unfold peek in
        omega (
          arith,
          size,
          readable_bytes_lem b v,
          size_sub_lem (b.reader_index + length line) b.reader_index,
        )
