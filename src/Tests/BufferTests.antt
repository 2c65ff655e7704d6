-- ===== src/Tests/BufferTests.antt =====
-- base/Buffer.cpp at concrete buffers.
use moxie_simple.Base.{◌≡◌, refl, [], ◌∷◌, some, arith}
use moxie_simple.Buffer.{Buffer, contents, append}
use moxie_simple.Buffer.Invariant.{IsValid}
use moxie_simple.Buffer.Compaction.{append-Appended, Appended}

-- Five readable bytes behind a prepend area of twelve, and one writable byte.
abbrev used : Buffer
used = record {
  initial_size = 10;
  buffer = 0 ∷ 0 ∷ 0 ∷ 0 ∷ 0 ∷ 0 ∷ 0 ∷ 0 ∷ 1 ∷ 2 ∷ 3 ∷ 4 ∷ 5 ∷ 6 ∷ 7 ∷ 13 ∷ 10 ∷ 0 ∷ [];
  reader_index = 12;
  writer_index = 17;
}

used-IsValid : IsValid used
used-IsValid = omega arith

contents-used : contents used ≡ 5 ∷ 6 ∷ 7 ∷ 13 ∷ 10 ∷ []
contents-used = refl

-- Four more bytes fit only after the move to the front.
append-Appended_example :
    (b' : Buffer) × (append used (1 ∷ 2 ∷ 3 ∷ 4 ∷ []) ≡ some b')
    × Appended used (1 ∷ 2 ∷ 3 ∷ 4 ∷ []) b'
append-Appended_example = append-Appended used (1 ∷ 2 ∷ 3 ∷ 4 ∷ []) used-IsValid (omega arith)
