-- ===== src/Listen.antt =====
-- base/ListenHadler.h and base/ListenHadler.cpp, with `AfterAcceptSuccess` of example/Echo.cpp,
-- example/MultiThreadEcho.cpp and example/Mcached/McachedServer.cpp. The event loop is that of
-- EventLoop.antt; `accept` is a list of outcomes, and the addresses that `new` gives are arguments.
-- `none` is a failed assertion, or a list that ends before `DoListen` does.
pub mod Retries
pub mod Owned
pub mod Polite
use moxie_simple.Base.{
  ℕ, zero, suc, ◌-◌, List, [], ◌∷◌, ◌++◌, Bool, true, false, ◌||◌, Option, none, some, ◌==◌,
  if◌then◌else◌, ◌>>=◌, ◌>>◌, assert,
}
use moxie_simple.PollerEvent.{
  PollerEvent, new_event, read_event, disable_write, valatile_error_event, valatile_close_event,
  valatile_write_event, valatile_read_event,
}
use moxie_simple.EventLoop.{EventLoop, EpollEvent, Ctl, register, modity, delete, set_poller}
use moxie_simple.ClientHandler.{eintr, eagain}

-- What `Socket::Accept` did: it failed with an errno, or it gave a descriptor.
pub data Accept : Type 0 where
  refused : ℕ → Accept
  accepted : ℕ → Accept

-- How the calls of `accept` end: with a descriptor, with a `return`, or with an errno of another
-- kind.
pub data Accepted : Type 0 where
  client : ℕ → Accepted
  give_up : Accepted
  broken : ℕ → Accepted

-- From `AcceptAgain` on, with the number of `retries` left, and the outcomes that are not used.
unfoldable pub accept_again : ℕ → List Accept → Option (Accepted × List Accept)
accept_again retries [] = none
accept_again retries (accepted fd ∷ outcomes) = some (client fd, outcomes)
accept_again retries (refused errno ∷ outcomes) =
    let retry = accept_again (retries - 1) outcomes in
    if errno == eintr
    then (if retries == 0 then some (give_up, outcomes) else retry)
    else (if errno == eagain then some (give_up, outcomes) else some (broken errno, outcomes))

-- The loop, and the descriptors that have been closed.
pub record Listener (E : Type 0) : Type 0 where
  pub loop : EventLoop E
  pub closed : List ℕ

-- `::close(fd)`. That the kernel takes a descriptor that is still watched out of epoll is left out.
unfoldable pub close : {E : Type 0} → ℕ → Listener E → Listener E
close fd s = record s { closed = s.closed ++ fd ∷ [] }

-- The new object at the address `p`: `make_shared<PollerEvent>(ret, kReadEvent)` and
-- `DisableWrite`.
unfoldable pub client_event : {E : Type 0} → ℕ → ℕ → ℕ → EventLoop E → EventLoop E
unfolding disable_write set_poller
client_event p garbage fd l = record l {
  pollers = set_poller l.pollers p (disable_write (new_event garbage fd read_event));
}

module _ {E : Type 0} (epoll_ctl : E → Ctl → ℕ → Option EpollEvent → Option E) where
  -- `AfterAcceptSuccess` of the servers: `handler` is the new handler, and `fresh` the address of
  -- the context that `Register` makes.
  unfoldable pub after_accept_success : Option ℕ → ℕ → ℕ → Listener E → Option (Listener E)
  unfolding register close
  after_accept_success fresh handler event s = do
    (ok, l) ← register epoll_ctl fresh event handler s.loop
    some
        (if ok then record s { loop = l } else close (l.pollers event).sock (record s { loop = l }))

  -- `loop->Delete(event); ::close(event->GetFd());`
  unfoldable pub drop_listener : ℕ → Listener E → Option (Listener E)
  unfolding delete close
  drop_listener event s = do
    (ok, l) ← delete epoll_ctl event s.loop
    some (close (l.pollers event).sock (record s { loop = l }))

  unfoldable pub do_listen :
      List Accept → Option ℕ → ℕ → ℕ → ℕ → ℕ → Listener E → Option (Listener E)
  unfolding accept_again client_event after_accept_success drop_listener
  do_listen outcomes fresh handler p garbage event s = do
    (how, rest) ← accept_again 5 outcomes
    elim how [
      | client fd ↦
          after_accept_success fresh handler p
            (record s { loop = client_event p garbage fd s.loop })
      | give_up ↦ some s
      | broken errno ↦ drop_listener event s
    ]

  unfoldable pub process : List Accept → Option ℕ → ℕ → ℕ → ℕ → ℕ → Listener E → Option (Listener E)
  unfolding modity do_listen drop_listener set_poller disable_write
  process outcomes fresh handler p garbage event s =
      let e = s.loop.pollers event in
      if valatile_error_event e || valatile_close_event e then drop_listener event s else (do
        s ←
            (if valatile_write_event e
              then (do
                (ok, l) ←
                    modity epoll_ctl event (record s.loop {
                      pollers = set_poller s.loop.pollers event (disable_write e);
                    })
                assert ok
                some (record s { loop = l }))
              else some s)
        (if valatile_read_event (s.loop.pollers event)
            then do_listen outcomes fresh handler p garbage event s
            else some s))
