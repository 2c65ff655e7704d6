-- ===== src/Buffer.antt =====
-- base/Buffer.h and base/Buffer.cpp: the byte buffer between a socket and its handler. A pointer
-- into the buffer is its offset from `begin()`. A method of a changed buffer returns the new one;
-- `none` is a failed `assert`. Sums and differences of `size_t` wrap at 2^64.
pub mod Invariant
pub mod Contents
pub mod MakeSpace
pub mod Compaction
pub mod ReadFd
use moxie_simple.Base.{
  ℕ, ◌-◌, List, [], ◌∷◌, ◌⊎◌, inl, inr, Option, none, some, ltb, leb, ◌==◌, if◌then◌else◌, assert,
  ◌>>=◌, ◌>>◌, length, take, drop, replicate, size_add, size_sub,
}
use moxie_simple.Base.Memory.{copy_from, copy_within, resize, slice, search}

-- `class Buffer`.
pub record Buffer : Type 0 where
  pub initial_size : ℕ
  pub buffer : List ℕ
  pub reader_index : ℕ
  pub writer_index : ℕ

abbrev pub cheap_prepend : ℕ
cheap_prepend = 8

-- `kCRLF`.
abbrev pub crlf : List ℕ
crlf = 13 ∷ 10 ∷ []

unfoldable pub prependable_bytes : Buffer → ℕ
prependable_bytes b = b.reader_index

unfoldable pub readable_bytes : Buffer → ℕ
readable_bytes b = size_sub b.writer_index b.reader_index

unfoldable pub writable_bytes : Buffer → ℕ
writable_bytes b = size_sub (length b.buffer) b.writer_index

-- The constructor, with its three assertions.
pub new : ℕ → Option Buffer
unfolding readable_bytes writable_bytes prependable_bytes
new initial_size = do
  let b : Buffer = record {
    initial_size = initial_size;
    buffer = replicate (size_add cheap_prepend initial_size) 0;
    reader_index = cheap_prepend;
    writer_index = cheap_prepend;
  }
  assert (readable_bytes b == 0)
  assert (writable_bytes b == initial_size)
  assert (prependable_bytes b == cheap_prepend)
  some b

-- `swap` leaves `initialSize_` of both where it is.
pub swap : Buffer → Buffer → Buffer × Buffer
swap a b = (
  record a { buffer = b.buffer; reader_index = b.reader_index; writer_index = b.writer_index },
  record b { buffer = a.buffer; reader_index = a.reader_index; writer_index = a.writer_index },
)

unfoldable pub peek : Buffer → ℕ
peek b = b.reader_index

unfoldable pub begin_write : Buffer → ℕ
begin_write b = b.writer_index

unfoldable pub retrieve_all : Buffer → Buffer
retrieve_all b = record b { reader_index = cheap_prepend; writer_index = cheap_prepend }

unfoldable pub retrieve : Buffer → ℕ → Option Buffer
unfolding readable_bytes retrieve_all
retrieve b len = do
  assert (leb len (readable_bytes b))
  some (
      if ltb len (readable_bytes b)
      then record b { reader_index = size_add b.reader_index len }
      else retrieve_all b)

pub retrieve_until : Buffer → ℕ → Option Buffer
unfolding peek begin_write
retrieve_until b end = do
  assert (leb (peek b) end)
  assert (leb end (begin_write b))
  retrieve b (end - peek b)

-- The string is built from `len` bytes at `peek()`.
unfoldable pub retrieve_as_string : Buffer → ℕ → Option (List ℕ × Buffer)
unfolding readable_bytes peek
retrieve_as_string b len = do
  assert (leb len (readable_bytes b))
  let result = slice b.buffer (peek b) len
  b' ← retrieve b len
  some (result, b')

pub retrieve_all_as_string : Buffer → Option (List ℕ × Buffer)
retrieve_all_as_string b = retrieve_as_string b (readable_bytes b)

unfoldable pub has_written : Buffer → ℕ → Buffer
has_written b len = record b { writer_index = size_add b.writer_index len }

unfoldable pub make_space : Buffer → ℕ → Option Buffer
unfolding writable_bytes prependable_bytes readable_bytes
make_space b len =
    if ltb (size_add (writable_bytes b) (prependable_bytes b)) (size_add len cheap_prepend)
    then some (record b { buffer = resize b.buffer (size_add b.writer_index len) })
    else (do
      assert (ltb cheap_prepend b.reader_index)
      let readable = readable_bytes b
      let b' : Buffer = record b {
        buffer =
            copy_within (size_sub b.writer_index b.reader_index) b.buffer b.reader_index
              cheap_prepend;
        reader_index = cheap_prepend;
        writer_index = size_add cheap_prepend readable;
      }
      assert (readable == readable_bytes b')
      some b')

unfoldable pub ensure_writable_bytes : Buffer → ℕ → Option Buffer
unfolding writable_bytes
ensure_writable_bytes b len = do
  b' ← (if ltb (writable_bytes b) len then make_space b len else some b)
  assert (leb len (writable_bytes b'))
  some b'

-- `append(data, len)`: the list is the `len` bytes at `data`.
unfoldable pub append : Buffer → List ℕ → Option Buffer
unfolding begin_write has_written
append b bytes = do
  b' ← ensure_writable_bytes b (length bytes)
  let copied = record b' { buffer = copy_from b'.buffer (begin_write b') bytes }
  some (has_written copied (length bytes))

-- `findChars`: the offset of the first occurrence, or `NULL`.
unfoldable pub find_chars : Buffer → List ℕ → Option ℕ
unfolding peek begin_write
find_chars b chars =
    let pos =
      size_add (peek b)
        (search (slice b.buffer (peek b) (size_sub (begin_write b) (peek b))) chars) in
    if pos == begin_write b then none else some pos

-- What `readv` did: it failed with an `errno`, or it delivered bytes, first into the writable part
-- and then into `extrabuf`.
pub data Readv : Type 0 where
  failed : ℕ → Readv
  delivered : List ℕ → Readv

-- `readFd`, given what the system call does. The result is the number of bytes, or the saved errno.
pub read_fd : Buffer → Readv → Option ((ℕ ⊎ ℕ) × Buffer)
unfolding writable_bytes
read_fd b (failed errno) = some (inl errno, b)
read_fd b (delivered bytes) =
    let n = length bytes in
    let writable = writable_bytes b in
    let filled = record b { buffer = copy_from b.buffer b.writer_index (take writable bytes) } in
    if leb n writable
    then some (inr n, record filled { writer_index = size_add b.writer_index n })
    else (do
      b' ← append (record filled { writer_index = length b.buffer }) (drop writable bytes)
      some (inr n, b'))

-- The abstract buffer: the readable bytes, oldest first.
abbrev pub contents : Buffer → List ℕ
contents b = slice b.buffer b.reader_index (b.writer_index - b.reader_index)
