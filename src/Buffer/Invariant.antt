-- ===== src/Buffer/Invariant.antt =====
-- The invariant of base/Buffer.cpp: 8 <= readerIndex_ <= writerIndex_ <= size, and a size that
-- `vector<char>` can have, so that no sum of `size_t` wraps.
use moxie_simple.Base.{
  ℕ, ◌+◌, ◌-◌, ◌^◌, ◌≤◌, ◌<◌, ◌≡◌, refl, [], some, arith, length, replicate, length-replicate,
  size_add, size_sub, size_add_lem, size_sub_lem, eq→==,
}
use moxie_simple.Base.Memory.{length-slice}
use moxie_simple.Buffer.{
  Buffer, new, swap, cheap_prepend, readable_bytes, writable_bytes, prependable_bytes, contents,
}

-- `vector<char>::max_size()` is 2^63 - 1.
abbrev pub max_size : ℕ
max_size = 2 ^ 63

pub record IsValid (b : Buffer) : Type 0 where
  pub prepend : cheap_prepend ≤ b.reader_index
  pub ordered : b.reader_index ≤ b.writer_index
  pub within : b.writer_index ≤ length b.buffer
  pub small : length b.buffer < max_size

pub readable_bytes_lem :
    (b : Buffer) → IsValid b → readable_bytes b ≡ b.writer_index - b.reader_index
unfolding readable_bytes
readable_bytes_lem b v = size_sub_lem b.writer_index b.reader_index v.ordered (omega arith)

pub writable_bytes_lem :
    (b : Buffer) → IsValid b → writable_bytes b ≡ length b.buffer - b.writer_index
unfolding writable_bytes
writable_bytes_lem b v = size_sub_lem (length b.buffer) b.writer_index v.within (omega arith)

pub length-contents : (b : Buffer) → IsValid b → length (contents b) ≡ readable_bytes b
length-contents b v = omega (
  arith,
  readable_bytes_lem b v,
  length-slice b.buffer b.reader_index (b.writer_index - b.reader_index) (omega arith),
)

-- The three areas of a valid buffer make up the array.
pub areas :
    (b : Buffer)
    → IsValid b
    → prependable_bytes b + readable_bytes b + writable_bytes b ≡ length b.buffer
unfolding prependable_bytes
areas b v = omega (arith, readable_bytes_lem b v, writable_bytes_lem b v)

abbrev fresh : ℕ → Buffer
fresh n = record {
  initial_size = n;
  buffer = replicate (size_add cheap_prepend n) 0;
  reader_index = cheap_prepend;
  writer_index = cheap_prepend;
}

-- The constructor's assertions hold for every size that the array can have, and the buffer is
-- valid, empty, and can take that many bytes.
pub new-IsValid :
    (n : ℕ)
    → cheap_prepend + n < max_size
    → (b : Buffer) × (new n ≡ some b) × IsValid b × (contents b ≡ []) × (writable_bytes b ≡ n)
unfolding new writable_bytes
new-IsValid n h = (fresh n, made, valid, refl, room)
  where
    size : length (replicate {A = ℕ} (size_add cheap_prepend n) 0) ≡ cheap_prepend + n
    size = omega (
      arith,
      size_add_lem cheap_prepend n (omega arith),
      length-replicate {A = ℕ} (size_add cheap_prepend n) 0,
    )

    valid : IsValid (fresh n)
    valid = omega (arith, size)

    room : size_sub (length (replicate {A = ℕ} (size_add cheap_prepend n) 0)) cheap_prepend ≡ n
    room = omega (
      arith,
      size,
      size_sub_lem (length (replicate {A = ℕ} (size_add cheap_prepend n) 0)) cheap_prepend,
    )

    made : new n ≡ some (fresh n)
    made = rw (
      eq→== (size_sub cheap_prepend cheap_prepend) 0
          (size_sub_lem cheap_prepend cheap_prepend (omega arith) (omega arith)),
      eq→== _ n room,
    )

pub swap-IsValid :
    (a b : Buffer)
    → IsValid a
    → IsValid b
    → IsValid (swap a b).0
      × IsValid (swap a b).1
      × (contents (swap a b).0 ≡ contents b)
      × (contents (swap a b).1 ≡ contents a)
unfolding swap
swap-IsValid a b v w = (ground arith, ground arith, refl, refl)
