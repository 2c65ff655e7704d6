-- ===== src/ClientHandler.antt =====
-- base/ClientHandler.h and base/ClientHandler.cpp: the read and write loops of a connection. What
-- the system calls do is a list of outcomes, one for each call; `none` is a loop that is not done
-- when the list ends, or a failed assertion of the buffer.
pub mod Delivery
pub mod HangUp
pub mod Reading
use moxie_simple.Base.{
  ℕ, ◌-◌, List, [], ◌∷◌, ◌++◌, Bool, true, false, ◌||◌, Option, none, some, ltb, ◌==◌,
  if◌then◌else◌, ◌>>=◌, ◌>>◌, ◌⊎◌, inl, inr, size_sub, take,
}
use moxie_simple.Base.Memory.{slice}
use moxie_simple.Buffer.{Buffer, new, peek, readable_bytes, retrieve, Readv, read_fd}
use moxie_simple.PollerEvent.{
  PollerEvent, valatile_error_event, valatile_close_event, valatile_write_event,
  valatile_read_event,
}

-- `EINTR`, and `EAGAIN`, which is also `EWOULDBLOCK`.
abbrev pub eintr : ℕ
eintr = 4

abbrev pub eagain : ℕ
eagain = 11

-- What `write` did: it failed with an errno, or it took some bytes.
pub data Write : Type 0 where
  refused : ℕ → Write
  wrote : ℕ → Write

-- The calls `loop->Delete(event)`, `::close(fd)`, and `loop->Modity(event)` with the interest of
-- the event.
pub data Call : Type 0 where
  delete : ℕ → Call
  close : ℕ → Call
  modity : ℕ → ℕ → Call

-- The two buffers and the event, with the bytes that `write` has taken and the calls so far.
pub record ClientHandler : Type 0 where
  pub read_buf : Buffer
  pub write_buf : Buffer
  pub event : PollerEvent
  pub sent : List ℕ
  pub calls : List Call

-- The constructor, with the event that the handler is registered for: two buffers of TMP_BUF_SIZE
-- bytes.
pub new_client : PollerEvent → Option ClientHandler
new_client event = do
  read_buf ← new 512
  write_buf ← new 512
  some (record { read_buf = read_buf; write_buf = write_buf; event = event; sent = []; calls = [] })

unfoldable pub hang_up : ClientHandler → ClientHandler
hang_up c = record c { calls = c.calls ++ delete c.event.sock ∷ close c.event.sock ∷ [] }

-- The loop of `DoWrite`, and whether it goes on to `AfterWriteLabel`.
unfoldable pub write_loop : List Write → ℕ → ClientHandler → Option (Bool × ClientHandler)
unfolding hang_up peek
write_loop [] len c = if len == 0 then some (true, c) else none
write_loop (refused errno ∷ outcomes) len c =
    let again = write_loop outcomes len c in
    if len == 0
    then some (true, c)
    else (if errno == eintr
        then again
        else (if errno == eagain then some (true, c) else some (false, hang_up c)))
write_loop (wrote n ∷ outcomes) len c =
    if len == 0
    then some (true, c)
    else (if n == 0 then some (false, hang_up c) else (do
      b ← retrieve c.write_buf n
      write_loop outcomes (size_sub len n) (record c {
        write_buf = b;
        sent = c.sent ++ slice c.write_buf.buffer (peek c.write_buf) n;
      })))

-- The loop of `DoRead`, and whether it goes on to `AfterReadLabel`.
unfoldable pub read_loop : List Readv → ClientHandler → Option (Bool × ClientHandler)
unfolding hang_up
read_loop [] c = none
read_loop (outcome ∷ outcomes) c = do
  (ret, b) ← read_fd c.read_buf outcome
  let c = record c { read_buf = b }
  elim ret [
    | inl errno ↦
        if errno == eintr
        then read_loop outcomes c
        else (if errno == eagain then some (true, c) else some (false, hang_up c))
    | inr n ↦ if n == 0 then some (false, hang_up c) else read_loop outcomes c
  ]

-- `AfetrRead` and `AfetrWrite` are what a class that inherits from this one makes of them.
module _ (after_read after_write : ClientHandler → Option ClientHandler) where
  unfoldable pub do_read : List Readv → ClientHandler → Option ClientHandler
  unfolding read_loop
  do_read outcomes c = do
    (served, c) ← read_loop outcomes c
    (if served
        then (if ltb 0 (readable_bytes c.read_buf) then after_read c else some c)
        else some c)

  unfoldable pub do_write : List Write → ClientHandler → Option ClientHandler
  unfolding write_loop
  do_write outcomes c = do
    (served, c) ← write_loop outcomes (readable_bytes c.write_buf) c
    (if served then after_write c else some c)

  unfoldable pub process_event : List Readv → List Write → ClientHandler → Option ClientHandler
  unfolding hang_up do_read do_write
  process_event reads writes c =
      if valatile_error_event c.event || valatile_close_event c.event then some (hang_up c) else (do
        c ← (if valatile_write_event c.event then do_write writes c else some c)
        (if valatile_read_event c.event then do_read reads c else some c))
