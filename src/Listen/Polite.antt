-- ===== src/Listen/Polite.antt =====
-- `Process` of base/ListenHadler.cpp does to the event loop what a handler may do.
use moxie_simple.Base.{
  ℕ, ◌<◌, ◌≡◌, refl, List, Bool, true, false, ◌||◌, Option, some, length, inl, inr, Bool-cases,
}
use moxie_simple.PollerEvent.{
  new_event, read_event, disable_write, valatile_error_event, valatile_close_event,
  valatile_write_event, valatile_read_event,
}
use moxie_simple.EventLoop.{EventLoop, EpollEvent, Ctl, register}
use moxie_simple.EventLoop.Tables.{IsEpoll, IsConsistent}
use moxie_simple.EventLoop.Calls.{IsUnused, delete-Returns}
use moxie_simple.EventLoop.Calls.Registration.{register-Returns}
use moxie_simple.EventLoop.Handlers.{Acts, done, registers, deletes, sets}
use moxie_simple.Listen.{
  Accept, Accepted, client, give_up, broken, Listener, close, client_event, after_accept_success,
  drop_listener, do_listen, process,
}
use moxie_simple.Listen.Retries.{accept_again-ends}
use moxie_simple.Listen.Owned.{client_event-IsConsistent, client_event-IsUnused}

module _ {E : Type 0} (epoll_ctl : E → Ctl → ℕ → Option EpollEvent → Option E)
    (watched : E → ℕ → Option EpollEvent) (laws : IsEpoll epoll_ctl watched) where
  -- A call on the listener returns, and does to the loop what the handler of `own` may do.
  abbrev pub Behaves : ℕ → EventLoop E → Option (Listener E) → Type 0
  Behaves own l r = (s' : Listener E) × (r ≡ some s') × Acts epoll_ctl watched own l s'.loop

  drop_listener-Behaves :
      (event : ℕ) (s : Listener E) (e : E)
      → IsConsistent watched s.loop e
      → Behaves (s.loop.pollers event).sock s.loop (drop_listener epoll_ctl event s)
  unfolding drop_listener close
  drop_listener-Behaves event s e v =
      let r = delete-Returns epoll_ctl watched laws event s.loop e v in
      (
        close (r.after.pollers event).sock (record s { loop = r.after }),
        simp (drop_listener, r.returned) refl,
        deletes event r.ok refl r.returned (done refl),
      )

  after_accept_success-Behaves :
      (own : ℕ) (fresh : Option ℕ) (handler event : ℕ) (s : Listener E) (e : E)
      → IsConsistent watched s.loop e
      → IsUnused fresh s.loop
      → Behaves own s.loop (after_accept_success epoll_ctl fresh handler event s)
  unfolding after_accept_success close
  after_accept_success-Behaves own fresh handler event s e v unused =
      let r = register-Returns epoll_ctl watched laws fresh event handler s.loop e v unused in
      registered r.ok r.after r.returned
    where
      registered :
          (ok : Bool) (after : EventLoop E)
          → register epoll_ctl fresh event handler s.loop ≡ some (ok, after)
          → Behaves own s.loop (after_accept_success epoll_ctl fresh handler event s)
      registered true after call = (
        record s { loop = after },
        simp (after_accept_success, call) refl,
        registers fresh event handler true unused call (done refl),
      )
      registered false after call = (
        close (after.pollers event).sock (record s { loop = after }),
        simp (after_accept_success, call) refl,
        registers fresh event handler false unused call (done refl),
      )

  do_listen-Behaves :
      (outcomes : List Accept) (fresh : Option ℕ) (handler p garbage event : ℕ) (s : Listener E)
      (e : E)
      → IsConsistent watched s.loop e
      → IsUnused fresh s.loop
      → 5 < length outcomes
      → Behaves
          (s.loop.pollers event).sock
          s.loop
          (do_listen epoll_ctl outcomes fresh handler p garbage event s)
  unfolding do_listen
  do_listen-Behaves outcomes fresh handler p garbage event s e v unused enough =
      let (how, rest, ended, used) = accept_again-ends 5 outcomes enough in
      rw (do_listen, ended) (ends how)
    where
      ends :
          (how : Accepted)
          → Behaves (s.loop.pollers event).sock s.loop (elim how [
            | client fd ↦
                after_accept_success epoll_ctl fresh handler p
                  (record s { loop = client_event p garbage fd s.loop })
            | give_up ↦ some s
            | broken errno ↦ drop_listener epoll_ctl event s
          ])
      ends (client fd) =
          let (s', returns, acts) =
            after_accept_success-Behaves (s.loop.pollers event).sock fresh handler p
              (record s { loop = client_event p garbage fd s.loop }) e
              (client_event-IsConsistent epoll_ctl watched laws p garbage fd s.loop e v)
              (client_event-IsUnused epoll_ctl watched laws fresh p garbage fd s.loop unused) in
          (
            s',
            returns,
            unfold client_event in sets p (disable_write (new_event garbage fd read_event)) acts,
          )
      ends give_up = (s, refl, done refl)
      ends (broken errno) = drop_listener-Behaves event s e v

  -- If the tables agree with what epoll watches, epoll answers as documented, the allocator gives
  -- no address in use, and writing is not reported for a listening socket, then `Process` of its
  -- handler returns once `accept` has answered six times, and it deletes no event but its own,
  -- whether it accepts, gives up or closes the socket.
  pub process-Behaves :
      (outcomes : List Accept) (fresh : Option ℕ) (handler p garbage event : ℕ) (s : Listener E)
      (e : E)
      → IsConsistent watched s.loop e
      → IsUnused fresh s.loop
      → 5 < length outcomes
      → valatile_write_event (s.loop.pollers event) ≡ false
      → Behaves
          (s.loop.pollers event).sock
          s.loop
          (process epoll_ctl outcomes fresh handler p garbage event s)
  unfolding process
  process-Behaves outcomes fresh handler p garbage event s e v unused enough no_write =
      elim (Bool-cases (
        valatile_error_event (s.loop.pollers event)
        || valatile_close_event (s.loop.pollers event))) [
          | inl hangs ↦ rw (process, hangs) (drop_listener-Behaves event s e v)
          | inr fine ↦ elim (Bool-cases (valatile_read_event (s.loop.pollers event))) [
            | inl readable ↦
                rw (process, fine, no_write, readable)
                  (do_listen-Behaves outcomes fresh handler p garbage event s e v unused enough)
            | inr idle ↦ (s, rw (process, fine, no_write, idle) refl, done refl)
          ]
        ]
