-- ===== src/Buffer/Compaction.antt =====
-- `append` of base/Buffer.cpp, which makes space where it has to.
use moxie_simple.Base.{
  ap, length-append, ℕ, ◌+◌, ◌-◌, ◌≤◌, ◌<◌, ◌≡◌, refl, ◌∙◌, List, ◌++◌, some, arith, length, ltb,
  if◌then◌else◌, inl, inr, lt→ltb, ge→ltb, size_add, size_add_lem, ◌&&◌, ◌⊎◌,
}
use moxie_simple.Base.Memory.{copy_from, length-copy_from, slice-copy_from_end}
use moxie_simple.Buffer.{
  Buffer, cheap_prepend, readable_bytes, writable_bytes, contents, ensure_writable_bytes, append,
  has_written, begin_write,
}
use moxie_simple.Buffer.Invariant.{
  IsValid, max_size, readable_bytes_lem, writable_bytes_lem, length-contents,
}
use moxie_simple.Buffer.MakeSpace.{MadeSpace, ensure_writable_bytes_lem}

-- What `append` leaves.
pub record Appended (b : Buffer) (bytes : List ℕ) (b' : Buffer) : Type 0 where
  pub valid : IsValid b'
  pub extended : contents b' ≡ contents b ++ bytes
  pub front : b.reader_index ≡ cheap_prepend → b'.reader_index ≡ cheap_prepend
  pub bound : b'.writer_index ≤ b.writer_index + length bytes
  pub size : length b'.buffer ≡ (
      if ltb (writable_bytes b) (length bytes)
        && ltb (length b.buffer) (cheap_prepend + readable_bytes b + length bytes)
      then b.writer_index + length bytes
      else length b.buffer)

copied : Buffer → List ℕ → Buffer
unfolding begin_write has_written
copied b bytes =
    has_written (record b { buffer = copy_from b.buffer (begin_write b) bytes }) (length bytes)

-- Copying behind the readable bytes, where there is room.
copied_lem :
    (b : Buffer) (bytes : List ℕ)
    → IsValid b
    → b.writer_index + length bytes ≤ length b.buffer
    → IsValid (copied b bytes)
      × (contents (copied b bytes) ≡ contents b ++ bytes)
      × (length (copied b bytes).buffer ≡ length b.buffer)
      × ((copied b bytes).reader_index ≡ b.reader_index)
      × ((copied b bytes).writer_index ≡ b.writer_index + length bytes)
unfolding copied
copied_lem b bytes v room = (
  omega (arith, same, end),
  rw end (slice-copy_from_end b.buffer b.reader_index b.writer_index bytes v.ordered room),
  same,
  refl,
  end,
)
  where
    end : size_add b.writer_index (length bytes) ≡ b.writer_index + length bytes
    end = size_add_lem b.writer_index (length bytes) (omega arith)

    same : length (copy_from b.buffer b.writer_index bytes) ≡ length b.buffer
    same = length-copy_from b.buffer b.writer_index bytes

append-copied :
    (b b' : Buffer) (bytes : List ℕ)
    → ensure_writable_bytes b (length bytes) ≡ some b'
    → append b bytes ≡ some (copied b' bytes)
unfolding append copied
append-copied b b' bytes e = rw e

-- `append` never fails on a valid buffer: it puts the bytes behind the readable ones, and changes
-- the array's size only where the bytes would not fit even after a move to the front.
pub append-Appended :
    (b : Buffer) (bytes : List ℕ)
    → IsValid b
    → b.writer_index + length bytes < max_size
    → (b' : Buffer) × (append b bytes ≡ some b') × Appended b bytes b'
append-Appended b bytes v small =
    let (b', e, how) = ensure_writable_bytes_lem b (length bytes) v small in
    (copied b' bytes, append-copied b b' bytes e, result b' how)
  where
    result :
        (b' : Buffer)
        → ((length bytes ≤ writable_bytes b) × (b' ≡ b))
          ⊎ ((writable_bytes b < length bytes) × MadeSpace b (length bytes) b')
        → Appended b bytes (copied b' bytes)
    result b' (inl (fits, same)) =
        let (w, c, s, r, e) = copied_lem b bytes v (omega (arith, writable_bytes_lem b v)) in
        rw same (record {
          valid = w;
          extended = c;
          front = λ h. r ∙ h;
          bound = omega (arith, e);
          size = rw (ge→ltb _ _ fits) s;
        })
    result b' (inr (short, m)) =
        let (w, c, s, r, e) = copied_lem b' bytes m.valid m.room in
        record {
          valid = w;
          extended = rw (← m.kept) c;
          front = λ h. r ∙ m.front h;
          bound = omega (arith, e, m.bound);
          size = rw (lt→ltb _ _ short, readable_bytes_lem b v) (s ∙ m.size);
        }

-- On a buffer whose readable bytes start at the front, `append` uses up the writable bytes: it
-- leaves as many fewer as it was given, and none where it had to grow.
pub writable-append :
    (b b' : Buffer) (bytes : List ℕ)
    → IsValid b
    → b.reader_index ≡ cheap_prepend
    → Appended b bytes b'
    → writable_bytes b' ≡ writable_bytes b - length bytes
writable-append b b' bytes v front a = ground (
  arith,
  writable_bytes_lem b v,
  writable_bytes_lem b' a.valid,
  readable_bytes_lem b v,
  readable_bytes_lem b' a.valid,
  a.front front,
  a.size,
  grown_by,
)
  where
    grown_by : readable_bytes b' ≡ readable_bytes b + length bytes
    grown_by = omega (
      arith,
      length-contents b v,
      length-contents b' a.valid,
      ap length a.extended,
      length-append (contents b) bytes,
    )
