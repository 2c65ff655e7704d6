-- ===== src/Buffer/ReadFd.antt =====
-- `readFd` of base/Buffer.cpp: whatever one `readv` delivers ends up behind the readable bytes.
use moxie_simple.Base.{
  ℕ, ◌+◌, ◌-◌, ◌≤◌, ◌<◌, ◌≡◌, refl, ap, ◌∙◌, List, ◌++◌, some, arith, length, leb, inl, inr,
  Bool-cases, leb→le, leb→gt, size_add, size_add_lem, take, drop, take_all, length-take,
  length-drop, take-append-drop, append_assoc,
}
use moxie_simple.Base.Memory.{copy_from, length-copy_from, slice-copy_from_end}
use moxie_simple.Buffer.{Buffer, failed, delivered, read_fd, writable_bytes, contents}
use moxie_simple.Buffer.Invariant.{IsValid, max_size, writable_bytes_lem}
use moxie_simple.Buffer.Compaction.{append-Appended}

-- A failed `readv` leaves the buffer, and its errno is the result.
pub read_fd-failed : (b : Buffer) (errno : ℕ) → read_fd b (failed errno) ≡ some (inl errno, b)
unfolding read_fd
read_fd-failed b errno = refl

-- The buffer when the delivered bytes fit behind the writer.
stored : Buffer → List ℕ → Buffer
stored b bytes = record b {
  buffer = copy_from b.buffer b.writer_index (take (writable_bytes b) bytes);
  writer_index = size_add b.writer_index (length bytes);
}

stored_lem :
    (b : Buffer) (bytes : List ℕ)
    → IsValid b
    → length bytes ≤ writable_bytes b
    → IsValid (stored b bytes) × (contents (stored b bytes) ≡ contents b ++ bytes)
unfolding stored
stored_lem b bytes v fits = (
  omega
      (arith, end, free, length-copy_from b.buffer b.writer_index (take (writable_bytes b) bytes)),
  rw (end, take_all (writable_bytes b) bytes fits)
      (slice-copy_from_end b.buffer b.reader_index b.writer_index bytes v.ordered
        (omega (arith, free))),
)
  where
    free : writable_bytes b ≡ length b.buffer - b.writer_index
    free = writable_bytes_lem b v

    end : size_add b.writer_index (length bytes) ≡ b.writer_index + length bytes
    end = size_add_lem b.writer_index (length bytes) (omega (arith, free))

-- The part of the array behind the writer, filled to its end.
filled : Buffer → List ℕ → Buffer
filled b bytes = record b {
  buffer = copy_from b.buffer b.writer_index (take (writable_bytes b) bytes);
  writer_index = length b.buffer;
}

filled_lem :
    (b : Buffer) (bytes : List ℕ)
    → IsValid b
    → writable_bytes b < length bytes
    → IsValid (filled b bytes)
      × (contents (filled b bytes) ≡ contents b ++ take (writable_bytes b) bytes)
      × (length (filled b bytes).buffer ≡ length b.buffer)
unfolding filled
filled_lem b bytes v over = (
  omega (arith, same),
  rw (← end) (
      slice-copy_from_end b.buffer b.reader_index b.writer_index part v.ordered
        (omega (arith, end))),
  same,
)
  where
    part : List ℕ
    part = take (writable_bytes b) bytes

    same : length (copy_from b.buffer b.writer_index part) ≡ length b.buffer
    same = length-copy_from b.buffer b.writer_index part

    end : b.writer_index + length part ≡ length b.buffer
    end = omega (arith, writable_bytes_lem b v, length-take (writable_bytes b) bytes)

stored_size :
    (b : Buffer) (bytes : List ℕ) → length (stored b bytes).buffer ≤ length b.buffer + length bytes
unfolding stored
stored_size b bytes =
    omega (arith, length-copy_from b.buffer b.writer_index (take (writable_bytes b) bytes))

filled_end : (b : Buffer) (bytes : List ℕ) → (filled b bytes).writer_index ≡ length b.buffer
unfolding filled
filled_end b bytes = refl

-- The array grows by no more than the bytes that came.
pub read_fd_lem :
    (b : Buffer) (bytes : List ℕ)
    → IsValid b
    → length b.buffer + length bytes < max_size
    → (b' : Buffer) × (read_fd b (delivered bytes) ≡ some (inr (length bytes), b'))
      × IsValid b'
      × (contents b' ≡ contents b ++ bytes)
      × (length b'.buffer ≤ length b.buffer + length bytes)
unfolding read_fd
read_fd_lem b bytes v small = elim (Bool-cases (leb (length bytes) (writable_bytes b))) [
  | inl fits ↦
      let (w, c) = stored_lem b bytes v (leb→le _ _ fits) in
      (stored b bytes, unfold stored in rw fits, w, c, stored_size b bytes)
  | inr over ↦
      let (w, c, s) = filled_lem b bytes v (leb→gt _ _ over) in
      let rest = drop (writable_bytes b) bytes in
      let (b', e, a) = append-Appended (filled b bytes) rest w (omega (arith, rest_fits, s)) in
      (
        b',
        unfold filled in rw (over, e) refl,
        a.valid,
        a.extended
            ∙ ap (λ k. k ++ rest) c
            ∙ append_assoc (contents b) (take (writable_bytes b) bytes) rest
            ∙ ap (◌++◌ (contents b)) (take-append-drop (writable_bytes b) bytes),
        ground (arith, a.size, rest_fits, s, filled_end b bytes),
      )
]
  where
    rest_fits : length (drop (writable_bytes b) bytes) ≤ length bytes
    rest_fits = omega (arith, length-drop (writable_bytes b) bytes)

-- `readFd` takes all delivered bytes in order, from the array and from `extrabuf`, whose contents
-- it appends; it returns their number and keeps the invariant.
pub read_fd-delivered :
    (b : Buffer) (bytes : List ℕ)
    → IsValid b
    → length b.buffer + length bytes < max_size
    → (b' : Buffer) × (read_fd b (delivered bytes) ≡ some (inr (length bytes), b'))
      × IsValid b'
      × (contents b' ≡ contents b ++ bytes)
read_fd-delivered b bytes v small =
    let (b', e, w, c, grown) = read_fd_lem b bytes v small in (b', e, w, c)
