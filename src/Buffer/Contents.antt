-- ===== src/Buffer/Contents.antt =====
-- The methods of base/Buffer.cpp against the list of readable bytes.
use moxie_simple.Base.{
  ℕ, ◌+◌, ◌-◌, ◌≤◌, ◌<◌, ◌≡◌, refl, ap, sym, ◌∙◌, List, [], none, some, arith, length, ltb, ◌==◌,
  if◌then◌else◌, inl, inr, Bool-cases, le→leb, ltb→lt, ltb→ge, drop-take, take-take_le, size_add,
  size_add_lem, size_sub_lem, take, drop, drop-drop, take_all, drop_all,
}
use moxie_simple.Base.Memory.{slice, search, search-le}
use moxie_simple.Buffer.{
  Buffer, readable_bytes, contents, retrieve, retrieve_all, retrieve_until, retrieve_as_string,
  retrieve_all_as_string, find_chars, peek, begin_write,
}
use moxie_simple.Buffer.Invariant.{IsValid, readable_bytes_lem, length-contents}

regroup : (w r len : ℕ) → w - (r + len) ≡ w - r - len
regroup w r len = omega arith

-- `retrieve(len)` of no more than is readable passes its assertion, drops the first `len` bytes and
-- keeps the invariant and the array.
pub retrieve_lem :
    (b : Buffer) (len : ℕ)
    → IsValid b
    → len ≤ readable_bytes b
    → (b' : Buffer) × (retrieve b len ≡ some b')
      × IsValid b'
      × (contents b' ≡ drop len (contents b))
      × (b'.buffer ≡ b.buffer)
unfolding retrieve
retrieve_lem b len v h =
    let r : readable_bytes b ≡ b.writer_index - b.reader_index = readable_bytes_lem b v in
    let moved : size_add b.reader_index len ≡ b.reader_index + len =
      size_add_lem b.reader_index len (omega arith) in
    elim (Bool-cases (ltb len (readable_bytes b))) [
      | inl less ↦ (
        record b { reader_index = size_add b.reader_index len },
        rw (le→leb _ _ h, less),
        omega (arith, ltb→lt len (readable_bytes b) less, readable_bytes_lem b v, moved),
        rw
            (
              moved,
              drop-take len (b.writer_index - b.reader_index) (drop b.reader_index b.buffer),
              drop-drop len b.reader_index b.buffer,
            )
            (ap (λ k. take k (drop (b.reader_index + len) b.buffer))
              (regroup b.writer_index b.reader_index len)),
        refl,
      )
      | inr all ↦ (
        retrieve_all b,
        rw (le→leb _ _ h, all),
        omega (arith, v.within),
        sym (
            drop_all len (contents b)
              (omega (arith, length-contents b v, ltb→ge len (readable_bytes b) all))),
        refl,
      )
    ]

-- More than is readable is a failed assertion.
pub retrieve_too_long : (b : Buffer) (len : ℕ) → readable_bytes b < len → retrieve b len ≡ none
unfolding retrieve
retrieve_too_long b len h = ground arith

pub find_chars_lem :
    (b : Buffer) (pat : List ℕ)
    → IsValid b
    → find_chars b pat ≡ (
        let n = search (contents b) pat in
        if n == length (contents b) then none else some (peek b + n))
unfolding find_chars peek begin_write
find_chars_lem b pat v =
    rw
      (
        size_sub_lem b.writer_index b.reader_index v.ordered (omega arith),
        size_add_lem b.reader_index (search (contents b) pat)
            (omega (arith, len, search-le (contents b) pat)),
      )
      (ground (arith, len))
  where
    len : length (contents b) ≡ b.writer_index - b.reader_index
    len = length-contents b v ∙ readable_bytes_lem b v

-- `retrieveAsString(len)` returns the first `len` readable bytes and drops them.
pub retrieve_as_string_lem :
    (b : Buffer) (len : ℕ)
    → IsValid b
    → len ≤ readable_bytes b
    → (b' : Buffer) × (retrieve_as_string b len ≡ some (take len (contents b), b'))
      × IsValid b'
      × (contents b' ≡ drop len (contents b))
      × (b'.buffer ≡ b.buffer)
unfolding retrieve_as_string
retrieve_as_string_lem b len v h =
    let (b', e, w, c, same) = retrieve_lem b len v h in
    (b', rw (le→leb _ _ h, e, ← string) refl, w, c, same)
  where
    string : take len (contents b) ≡ slice b.buffer b.reader_index len
    string =
        take-take_le len (b.writer_index - b.reader_index) (drop b.reader_index b.buffer)
          (omega (arith, readable_bytes_lem b v))

-- `retrieveUntil(end)` with `end` inside the readable bytes drops those before it.
pub retrieve_until_lem :
    (b : Buffer) (end : ℕ)
    → IsValid b
    → b.reader_index ≤ end
    → end ≤ b.writer_index
    → (b' : Buffer) × (retrieve_until b end ≡ some b')
      × IsValid b'
      × (contents b' ≡ drop (end - b.reader_index) (contents b))
unfolding retrieve_until
retrieve_until_lem b end v low high =
    let (b', e, w, c, same) =
      retrieve_lem b (end - b.reader_index) v (omega (arith, readable_bytes_lem b v)) in
    (b', rw (le→leb _ _ low, le→leb _ _ high) e, w, c)

-- `retrieveAllAsString()` returns all readable bytes and leaves none.
pub retrieve_all_as_string_lem :
    (b : Buffer)
    → IsValid b
    → (b' : Buffer) × (retrieve_all_as_string b ≡ some (contents b, b'))
      × IsValid b'
      × (contents b' ≡ [])
unfolding retrieve_all_as_string
retrieve_all_as_string_lem b v =
    let (b', e, w, c, same) = retrieve_as_string_lem b (readable_bytes b) v (omega arith) in
    (
      b',
      rw (e, take_all (readable_bytes b) (contents b) (omega (arith, len))),
      w,
      c ∙ drop_all (readable_bytes b) (contents b) (omega (arith, len)),
    )
  where
    len : length (contents b) ≡ readable_bytes b
    len = length-contents b v
