-- ===== src/ClientHandler/Reading.antt =====
-- The read loop of base/ClientHandler.cpp collects what `readv` delivers.
use moxie_simple.Base.{
  ℕ, ◌+◌, ◌≤◌, ◌<◌, ◌≡◌, ◌≢◌, refl, sym, ap, ◌∙◌, List, [], ◌∷◌, ◌++◌, append-nil, append_assoc,
  true, false, Option, some, arith, length, length-append, inr, ne→==, ltb, lt→ltb,
}
use moxie_simple.Buffer.{Buffer, contents, readable_bytes, Readv, failed, delivered, read_fd}
use moxie_simple.Buffer.Invariant.{IsValid, max_size, length-contents}
use moxie_simple.Buffer.ReadFd.{read_fd-failed, read_fd_lem}
use moxie_simple.ClientHandler.{ClientHandler, eagain, eintr, read_loop, hang_up, do_read}

-- What arrives while no call fails for good and the stream does not end: `readv` is interrupted, or
-- delivers bytes.
pub data Arrives : List Readv → List ℕ → Type 0 where
  quiet : Arrives [] []
  interrupted :
      {outcomes : List Readv} {bytes : List ℕ}
      → Arrives outcomes bytes
      → Arrives (failed eintr ∷ outcomes) bytes
  chunk :
      {outcomes : List Readv} {bytes : List ℕ} (part : List ℕ)
      → length part ≢ 0
      → Arrives outcomes bytes
      → Arrives (delivered part ∷ outcomes) (part ++ bytes)

abbrev with_read : ClientHandler → Buffer → ClientHandler
with_read c b = record c { read_buf = b }

read_loop-interrupted :
    (c : ClientHandler) (outcomes : List Readv)
    → read_loop (failed eintr ∷ outcomes) c ≡ read_loop outcomes c
unfolding read_loop
read_loop-interrupted c outcomes = rw (read_loop, read_fd-failed c.read_buf eintr) refl

read_loop-chunk :
    (c : ClientHandler) (part : List ℕ) (outcomes : List Readv) (b : Buffer)
    → length part ≢ 0
    → read_fd c.read_buf (delivered part) ≡ some (inr (length part), b)
    → read_loop (delivered part ∷ outcomes) c ≡ read_loop outcomes (with_read c b)
unfolding read_loop
read_loop-chunk c part outcomes b some_bytes e = rw (read_loop, e, ne→== _ _ some_bytes) refl

read_loop-dry :
    (c : ClientHandler) (later : List Readv) → read_loop (failed eagain ∷ later) c ≡ some (true, c)
unfolding read_loop
read_loop-dry c later = rw (read_loop, read_fd-failed c.read_buf eagain) refl

read_loop-end :
    (c : ClientHandler) (later : List Readv) (b : Buffer)
    → read_fd c.read_buf (delivered []) ≡ some (inr 0, b)
    → read_loop (delivered [] ∷ later) c ≡ some (false, hang_up (with_read c b))
unfolding read_loop
read_loop-end c later b e = rw (read_loop, e) refl

-- Whatever comes after, the loop has put all that arrived into the buffer by then, and changed
-- nothing else.
pub read_loop-Arrives :
    {outcomes : List Readv} {bytes : List ℕ} (c : ClientHandler) (after : List Readv)
    → Arrives outcomes bytes
    → IsValid c.read_buf
    → length c.read_buf.buffer + length bytes < max_size
    → (b : Buffer) × (read_loop (outcomes ++ after) c ≡ read_loop after (record c { read_buf = b }))
      × IsValid b
      × (contents b ≡ contents c.read_buf ++ bytes)
      × (length b.buffer ≤ length c.read_buf.buffer + length bytes)
read_loop-Arrives c after quiet v small =
    (c.read_buf, refl, v, sym (append-nil (contents c.read_buf)), omega arith)
read_loop-Arrives c after (interrupted {outcomes} more) v small =
    let (b, e, w, all, grown) = read_loop-Arrives c after more v small in
    (b, read_loop-interrupted c (outcomes ++ after) ∙ e, w, all, grown)
read_loop-Arrives c after (chunk {outcomes} {bytes} part some_bytes more) v small =
    let split : length (part ++ bytes) ≡ length part + length bytes = length-append part bytes in
    let (b₁, e₁, v₁, c₁, g₁) = read_fd_lem c.read_buf part v (omega (arith, split)) in
    let (b, e, w, all, grown) =
      read_loop-Arrives (with_read c b₁) after more v₁ (omega (arith, split, g₁)) in
    (
      b,
      read_loop-chunk c part (outcomes ++ after) b₁ some_bytes e₁ ∙ e,
      w,
      all ∙ ap (λ k. k ++ bytes) c₁ ∙ append_assoc (contents c.read_buf) part bytes,
      omega (arith, split, g₁, grown),
    )

module _ (after_read after_write : ClientHandler → Option ClientHandler) where
  -- When `readv` has no more, `DoRead` calls `AfetrRead` with all bytes that have arrived behind
  -- those that were waiting.
  pub do_read-Arrives :
      {outcomes : List Readv} {bytes : List ℕ} (c : ClientHandler) (later : List Readv)
      → Arrives outcomes bytes
      → IsValid c.read_buf
      → length c.read_buf.buffer + length bytes < max_size
      → 0 < length bytes
      → (b : Buffer) × (do_read after_read after_write (outcomes ++ failed eagain ∷ later) c
          ≡ after_read (record c { read_buf = b }))
        × IsValid b
        × (contents b ≡ contents c.read_buf ++ bytes)
  unfolding do_read
  do_read-Arrives {outcomes} {bytes} c later arrives v small some_bytes =
      let (b, e, w, all, grown) = read_loop-Arrives c (failed eagain ∷ later) arrives v small in
      (b, rw (do_read, e, read_loop-dry, waiting b w all) refl, w, all)
    where
      waiting :
          (b : Buffer)
          → IsValid b
          → contents b ≡ contents c.read_buf ++ bytes
          → ltb 0 (readable_bytes b) ≡ true
      waiting b w all = lt→ltb 0 (readable_bytes b) (
          omega (
            arith,
            some_bytes,
            length-contents b w,
            ap length all,
            length-append (contents c.read_buf) bytes,
          ))

  -- When bytes arrive for a valid read buffer, no more than it can hold, and the peer has closed
  -- its side right behind them, `DoRead` hangs up without `AfetrRead`, with the bytes in the read
  -- buffer: they are not served, and nothing is sent.
  pub do_read-unserved :
      {outcomes : List Readv} {bytes : List ℕ} (c : ClientHandler) (later : List Readv)
      → Arrives outcomes bytes
      → IsValid c.read_buf
      → length c.read_buf.buffer + length bytes < max_size
      → (b : Buffer) × (do_read after_read after_write (outcomes ++ delivered [] ∷ later) c
          ≡ some (hang_up (record c { read_buf = b })))
        × (contents b ≡ contents c.read_buf ++ bytes)
  unfolding do_read
  do_read-unserved {outcomes} {bytes} c later arrives v small =
      let (b₁, e₁, v₁, all₁, g₁) = read_loop-Arrives c (delivered [] ∷ later) arrives v small in
      let (b, e, w, all, g) = read_fd_lem b₁ [] v₁ (omega (arith, g₁)) in
      (
        b,
        rw (do_read, e₁, read_loop-end (with_read c b₁) later b e) refl,
        all ∙ append-nil (contents b₁) ∙ all₁,
      )
