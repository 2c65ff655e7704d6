-- ===== src/ClientHandler/HangUp.antt =====
-- `Process` of base/ClientHandler.cpp on a connection that breaks while it is written to.
use moxie_simple.Base.{
  ℕ, ◌≡◌, ◌≢◌, refl, List, [], ◌∷◌, ◌++◌, append_assoc, true, false, Option, some, ne→==,
}
use moxie_simple.Buffer.{readable_bytes, Readv, failed}
use moxie_simple.Buffer.ReadFd.{read_fd-failed}
use moxie_simple.PollerEvent.{
  valatile_error_event, valatile_close_event, valatile_write_event, valatile_read_event,
}
use moxie_simple.ClientHandler.{
  ClientHandler, Write, refused, delete, close, eagain, eintr, write_loop, read_loop, do_read,
  do_write, hang_up, process_event,
}

-- An errno other than EINTR and EAGAIN.
abbrev pub IsHard : ℕ → Type 0
IsHard errno = (errno ≢ eintr) × (errno ≢ eagain)

module _ (after_read after_write : ClientHandler → Option ClientHandler) where
  do_write-hang_up :
      (c : ClientHandler) (errno : ℕ) (more : List Write)
      → readable_bytes c.write_buf ≢ 0
      → IsHard errno
      → do_write after_read after_write (refused errno ∷ more) c ≡ some (hang_up c)
  unfolding do_write write_loop
  do_write-hang_up c errno more some_left hard =
      rw (do_write, write_loop, ne→== _ _ some_left, ne→== _ _ hard.0, ne→== _ _ hard.1) refl

  do_read-hang_up :
      (c : ClientHandler) (errno : ℕ) (more : List Readv)
      → IsHard errno
      → do_read after_read after_write (failed errno ∷ more) c ≡ some (hang_up c)
  unfolding do_read read_loop
  do_read-hang_up c errno more hard =
      rw (do_read, read_loop, read_fd-failed c.read_buf errno, ne→== _ _ hard.0, ne→== _ _ hard.1)
        refl

  -- If both directions are ready and `write` fails for good, `Process` deletes the event and closes
  -- the descriptor, and then reads from the closed descriptor. When that fails for good too, as it
  -- does with EBADF, `Delete` and `close` are called a second time.
  pub process_event-closes_twice :
      (c : ClientHandler) (errno bad_descriptor : ℕ) (reads : List Readv) (writes : List Write)
      → valatile_error_event c.event ≡ false
      → valatile_close_event c.event ≡ false
      → valatile_write_event c.event ≡ true
      → valatile_read_event c.event ≡ true
      → readable_bytes c.write_buf ≢ 0
      → IsHard errno
      → IsHard bad_descriptor
      → (c' : ClientHandler) × (process_event after_read after_write
            (failed bad_descriptor ∷ reads)
            (refused errno ∷ writes)
            c
          ≡ some c')
        × (c'.calls
            ≡ c.calls
              ++ (delete c.event.sock
                  ∷ close c.event.sock
                  ∷ delete c.event.sock
                  ∷ close c.event.sock
                  ∷ []))
        × (c'.sent ≡ c.sent)
  unfolding process_event hang_up
  process_event-closes_twice c errno bad_descriptor reads writes no_error no_close writable readable
        some_left hard bad =
      (
        hang_up (hang_up c),
        rw
            (
              process_event,
              no_error,
              no_close,
              writable,
              do_write-hang_up c errno writes some_left hard,
              readable,
              do_read-hang_up (hang_up c) bad_descriptor reads bad,
            )
            refl,
        append_assoc c.calls (delete c.event.sock ∷ close c.event.sock ∷ [])
            (delete c.event.sock ∷ close c.event.sock ∷ []),
        refl,
      )
