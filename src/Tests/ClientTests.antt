-- ===== src/Tests/ClientTests.antt =====
-- base/ClientHandler.cpp at a concrete connection.
use moxie_simple.Base.{◌≡◌, refl, [], ◌∷◌, ◌++◌, arith, some, size_sub, Option}
use moxie_simple.Buffer.{Buffer, readable_bytes, failed, delivered, contents}
use moxie_simple.Buffer.Invariant.{IsValid}
use moxie_simple.ClientHandler.{
  ClientHandler, refused, wrote, eagain, eintr, write_loop, process_event, delete, close, hang_up,
  do_read,
}
use moxie_simple.PollerEvent.{
  valatile_error_event, valatile_close_event, valatile_write_event, valatile_read_event,
}
use moxie_simple.ClientHandler.HangUp.{process_event-closes_twice}
use moxie_simple.ClientHandler.Reading.{quiet, interrupted, chunk, do_read-unserved}
use moxie_simple.Echo
use moxie_simple.Echo.Session.{IsReady, start, reads, Session-echoes}
use moxie_simple.ClientHandler.Delivery.{Delivered, write_loop-Delivered}

abbrev waiting : Buffer
waiting = record {
  initial_size = 5;
  buffer = 0 ∷ 0 ∷ 0 ∷ 0 ∷ 0 ∷ 0 ∷ 0 ∷ 0 ∷ 1 ∷ 2 ∷ 3 ∷ 4 ∷ 5 ∷ [];
  reader_index = 8;
  writer_index = 13;
}

abbrev client : ClientHandler
client = record {
  read_buf = record waiting { writer_index = 8 };
  write_buf = waiting;
  event = record { event = 7; valatile = 4; sock = 9 };
  sent = [];
  calls = [];
}

waiting-IsValid : IsValid waiting
waiting-IsValid = omega arith

-- Two bytes, an interrupted call, two more bytes, and then the socket is full.
write_loop-Delivered_example : Delivered client (
    write_loop
      (wrote 2 ∷ refused eintr ∷ wrote 2 ∷ refused eagain ∷ [])
      (readable_bytes waiting)
      client)
unfolding readable_bytes size_sub
write_loop-Delivered_example =
    write_loop-Delivered (wrote 2 ∷ refused eintr ∷ wrote 2 ∷ []) client waiting-IsValid
      (omega arith, (omega arith, tt))

-- EPIPE is 32, and EBADF 9.
process_event-closes_twice_example :
    (c' : ClientHandler) × (process_event some some
        (failed 9 ∷ [])
        (refused 32 ∷ [])
        (record client { event = record { event = 7; valatile = 5; sock = 9 } })
      ≡ some c')
    × (c'.calls ≡ delete 9 ∷ close 9 ∷ delete 9 ∷ close 9 ∷ [])
    × (c'.sent ≡ [])
unfolding readable_bytes size_sub valatile_error_event valatile_close_event valatile_write_event
    valatile_read_event
process_event-closes_twice_example =
    process_event-closes_twice some some
      (record client { event = record { event = 7; valatile = 5; sock = 9 } }) 32 9 [] [] refl refl
      refl refl (λ e. absurd (omega (arith, e)))
      (λ e. absurd (omega (arith, e)), λ e. absurd (omega (arith, e)))
      (λ e. absurd (omega (arith, e)), λ e. absurd (omega (arith, e)))

-- Two bytes arrive in two chunks around an interruption, and the peer has closed its side.
do_read-unserved_example :
    (b : Buffer) × (do_read some some
        (delivered (1 ∷ []) ∷ failed eintr ∷ delivered (2 ∷ []) ∷ delivered [] ∷ [])
        client
      ≡ some (hang_up (record client { read_buf = b })))
    × (contents b ≡ 1 ∷ 2 ∷ [])
do_read-unserved_example =
    do_read-unserved some some client []
      (chunk (1 ∷ []) (λ e. absurd (omega (arith, e)))
        (interrupted (chunk (2 ∷ []) (λ e. absurd (omega (arith, e))) quiet)))
      (omega arith) (omega arith)

-- A connection that is ready and has sent nothing.
abbrev fresh_client : ClientHandler
fresh_client = record client { write_buf = record waiting { writer_index = 8 } }

fresh_client-IsReady : IsReady fresh_client
unfolding readable_bytes size_sub
fresh_client-IsReady = record {
  valid = omega arith;
  valid_write = omega arith;
  empty = refl;
  interested = λ h. absurd (omega (arith, h));
}

abbrev one_read : Option ClientHandler
one_read =
    do_read Echo.after_read Echo.after_write (delivered (7 ∷ 8 ∷ []) ∷ failed eagain ∷ [])
      fresh_client

-- Two bytes arrive and wait to be sent.
Session-echoes_example :
    (after : ClientHandler) × (one_read ≡ some after)
    × IsReady after
    × (after.sent ++ contents after.write_buf ≡ 7 ∷ 8 ∷ [])
Session-echoes_example = Session-echoes fresh_client fresh_client-IsReady refl (
    reads [] (chunk (7 ∷ 8 ∷ []) (λ e. absurd (omega (arith, e))) quiet) (omega arith) (omega arith)
      (omega arith) start)
