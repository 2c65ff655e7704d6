-- ===== src/Buffer/MakeSpace.antt =====
-- `makeSpace` and `ensureWritableBytes` of base/Buffer.cpp: no assertion fails, the readable bytes
-- survive the move to the front or the growth of the array, and the array grows only when it must.
use moxie_simple.Base.{
  ℕ, ◌+◌, ◌-◌, ◌≤◌, ◌<◌, ◌≡◌, refl, ◌∙◌, some, arith, length, ltb, if◌then◌else◌, inl, inr,
  Bool-cases, le→leb, lt→ltb, ge→ltb, ltb→lt, ltb→ge, eq→==, size_add, size_sub, size_add_lem,
  size_sub_lem, ◌⊎◌,
}
use moxie_simple.Base.Memory.{
  copy_within, resize, length-copy_within, length-resize, slice-copy_within, slice-resize,
}
use moxie_simple.Buffer.{
  Buffer, cheap_prepend, readable_bytes, writable_bytes, prependable_bytes, contents, make_space,
  ensure_writable_bytes,
}
use moxie_simple.Buffer.Invariant.{IsValid, max_size, readable_bytes_lem, writable_bytes_lem}

-- What `makeSpace` and `ensureWritableBytes` promise.
pub record MadeSpace (b : Buffer) (len : ℕ) (b' : Buffer) : Type 0 where
  pub valid : IsValid b'
  pub room : b'.writer_index + len ≤ length b'.buffer
  pub kept : contents b' ≡ contents b
  pub front : b.reader_index ≡ cheap_prepend → b'.reader_index ≡ cheap_prepend
  pub bound : b'.writer_index ≤ b.writer_index
  pub size : length b'.buffer ≡ (
      if ltb (length b.buffer) (cheap_prepend + (b.writer_index - b.reader_index) + len)
      then b.writer_index + len
      else length b.buffer)

-- Growing keeps the indices and appends zeros.
grown : (b : Buffer) (len : ℕ) → Buffer
grown b len = record b { buffer = resize b.buffer (size_add b.writer_index len) }

grown-MadeSpace :
    (b : Buffer) (len : ℕ)
    → IsValid b
    → length b.buffer < cheap_prepend + (b.writer_index - b.reader_index) + len
    → b.writer_index + len < max_size
    → MadeSpace b len (grown b len)
unfolding grown
grown-MadeSpace b len v full small = record {
  valid = omega (arith, size);
  room = omega (arith, size);
  kept =
      slice-resize b.buffer _ b.reader_index (b.writer_index - b.reader_index) (omega arith)
        (omega (arith, sum));
  front = λ h. h;
  bound = omega arith;
  size = rw (lt→ltb _ _ full) size;
}
  where
    sum : size_add b.writer_index len ≡ b.writer_index + len
    sum = size_add_lem b.writer_index len (omega arith)

    size : length (resize b.buffer (size_add b.writer_index len)) ≡ b.writer_index + len
    size = length-resize b.buffer (size_add b.writer_index len) ∙ sum

-- Moving the readable bytes to the front.
moved : Buffer → Buffer
moved b = record b {
  buffer =
      copy_within (size_sub b.writer_index b.reader_index) b.buffer b.reader_index cheap_prepend;
  reader_index = cheap_prepend;
  writer_index = size_add cheap_prepend (readable_bytes b);
}

moved-MadeSpace :
    (b : Buffer) (len : ℕ)
    → IsValid b
    → cheap_prepend < b.reader_index
    → cheap_prepend + (b.writer_index - b.reader_index) + len ≤ length b.buffer
    → MadeSpace b len (moved b)
unfolding moved
moved-MadeSpace b len v front fits = record {
  valid = omega (arith, size, end);
  room = omega (arith, size, end);
  kept =
      rw (after, before)
        (slice-copy_within (b.writer_index - b.reader_index) b.buffer b.reader_index cheap_prepend
          front (omega arith));
  front = λ h. refl;
  bound = omega (arith, end);
  size = rw (ge→ltb _ _ fits) size;
}
  where
    end :
        size_add cheap_prepend (readable_bytes b)
        ≡ cheap_prepend + (b.writer_index - b.reader_index)
    end = omega (arith, readable_bytes_lem b v, size_add_lem cheap_prepend (readable_bytes b))

    after :
        size_add cheap_prepend (readable_bytes b) - cheap_prepend ≡ b.writer_index - b.reader_index
    after = omega (arith, end)

    before : size_sub b.writer_index b.reader_index ≡ b.writer_index - b.reader_index
    before = size_sub_lem b.writer_index b.reader_index v.ordered (omega arith)

    size : length (moved b).buffer ≡ length b.buffer
    size =
        length-copy_within (size_sub b.writer_index b.reader_index) b.buffer b.reader_index
          cheap_prepend

-- The test of `makeSpace` compares the whole array with what has to fit behind the prepend area.
make_space_test :
    (b : Buffer) (len : ℕ)
    → IsValid b
    → b.writer_index + len < max_size
    → (size_add (writable_bytes b) (prependable_bytes b)
        ≡ length b.buffer - b.writer_index + b.reader_index)
      × (size_add len cheap_prepend ≡ len + cheap_prepend)
unfolding prependable_bytes
make_space_test b len v small = (
  rw (writable_bytes_lem b v)
      (size_add_lem (length b.buffer - b.writer_index) b.reader_index (omega arith)),
  size_add_lem len cheap_prepend (omega arith),
)

moved_readable :
    (b : Buffer)
    → IsValid b
    → readable_bytes b ≡ size_sub (size_add cheap_prepend (readable_bytes b)) cheap_prepend
moved_readable b v = omega (
  arith,
  readable_bytes_lem b v,
  size_add_lem cheap_prepend (readable_bytes b),
  size_sub_lem (size_add cheap_prepend (readable_bytes b)) cheap_prepend,
)

-- Where `makeSpace` moves the bytes its assertion `kCheapPrepend < readerIndex_` holds.
make_space-MadeSpace :
    (b : Buffer) (len : ℕ)
    → IsValid b
    → writable_bytes b < len
    → b.writer_index + len < max_size
    → (b' : Buffer) × (make_space b len ≡ some b') × MadeSpace b len b'
unfolding make_space
make_space-MadeSpace b len v short small =
    let (t, u) = make_space_test b len v small in
    let free = writable_bytes_lem b v in
    elim (Bool-cases
      (ltb (size_add (writable_bytes b) (prependable_bytes b)) (size_add len cheap_prepend))) [
        | inl grow ↦ (
          grown b len,
          unfold grown in rw grow,
          grown-MadeSpace b len v (omega (arith, ltb→lt _ _ grow)) small,
        )
        | inr move ↦
            let front : cheap_prepend < b.reader_index = omega (arith, ltb→ge _ _ move) in
            (
              moved b,
              unfold moved in rw (move, lt→ltb _ _ front, eq→== _ _ (moved_readable b v)),
              moved-MadeSpace b len v front (omega (arith, ltb→ge _ _ move)),
            )
      ]

-- `ensureWritableBytes(len)` passes its assertion. It leaves a buffer with room as it is; otherwise
-- it moves the readable bytes to the front if the array is large enough, and grows it if not.
pub ensure_writable_bytes_lem :
    (b : Buffer) (len : ℕ)
    → IsValid b
    → b.writer_index + len < max_size
    → (b' : Buffer) × (ensure_writable_bytes b len ≡ some b')
      × (((len ≤ writable_bytes b) × (b' ≡ b)) ⊎ ((writable_bytes b < len) × MadeSpace b len b'))
unfolding ensure_writable_bytes
ensure_writable_bytes_lem b len v small = elim (Bool-cases (ltb (writable_bytes b) len)) [
  | inl short ↦
      let (b', e, m) = make_space-MadeSpace b len v (ltb→lt _ _ short) small in
      (
        b',
        rw (
          short,
          e,
          le→leb len (writable_bytes b') (omega (arith, m.room, writable_bytes_lem b' m.valid)),
        ),
        inr (ltb→lt _ _ short, m),
      )
  | inr fits ↦ (b, rw (fits, le→leb _ _ (ltb→ge _ _ fits)), inl (ltb→ge _ _ fits, refl))
]
