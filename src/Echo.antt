-- ===== src/Echo.antt =====
-- example/Echo.cpp and example/MultiThreadEcho.cpp, whose `EchoClientHandler` is the same: what a
-- connection of the echo server does after it has read and written.
pub mod Session
use moxie_simple.Base.{
  ℕ, ◌≡◌, ◌≢◌, ◌+◌, ◌<◌, refl, ◌∙◌, ap, List, [], ◌∷◌, ◌++◌, append_assoc, append-nil, Bool, true,
  false, Option, none, some, arith, length, ltb, if◌then◌else◌, ◌>>=◌, lt→ltb, ge→ltb, Bool-cases,
  inl, inr, ltb→lt, ltb→ge, take, length-append,
}
use moxie_simple.Base.Memory.{slice}
use moxie_simple.Buffer.{
  Buffer, append, peek, readable_bytes, retrieve_all, contents, Readv, failed,
}
use moxie_simple.Buffer.Invariant.{IsValid, max_size, length-contents, readable_bytes_lem}
use moxie_simple.Buffer.Compaction.{append-Appended}
use moxie_simple.PollerEvent.{enable_write, disable_write, PollerEvent}
use moxie_simple.PollerEvent.Bits.{enable_write_lem, wants_write}
use moxie_simple.ClientHandler.{
  ClientHandler, modity, Write, refused, eagain, do_read, do_write, write_loop,
}
use moxie_simple.ClientHandler.Delivery.{stream, Fits, Delivered, write_loop-Delivered}
use moxie_simple.ClientHandler.Reading.{Arrives, do_read-Arrives}

-- `loop->Modity(event)`, whose result is not looked at.
unfoldable pub update_interest : PollerEvent → ClientHandler → ClientHandler
update_interest event c = record c {
  event = event;
  calls = c.calls ++ modity event.sock event.event ∷ [];
}

-- `EchoClientHandler::AfetrRead`.
unfoldable pub after_read : ClientHandler → Option ClientHandler
unfolding update_interest peek retrieve_all
after_read c =
    if ltb 0 (readable_bytes c.read_buf)
    then (do
      b ← append c.write_buf (slice c.read_buf.buffer (peek c.read_buf) (readable_bytes c.read_buf))
      some (
          update_interest (enable_write c.event)
            (record c { write_buf = b; read_buf = retrieve_all c.read_buf })))
    else some c

-- `EchoClientHandler::AfetrWrite`.
unfoldable pub after_write : ClientHandler → Option ClientHandler
unfolding update_interest
after_write c =
    if ltb 0 (readable_bytes c.write_buf)
    then some c
    else some (update_interest (disable_write c.event) c)
