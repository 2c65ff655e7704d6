-- ===== src/Tests/LoopTests.antt =====
-- base/EventLoop.cpp and base/ListenHadler.cpp with an epoll that is a table of descriptors.
use moxie_simple.Base.{
  ℕ, ◌≡◌, refl, sym, ap, List, [], ◌∷◌, Bool, true, false, Option, none, some, arith, ◌==◌,
  if◌then◌else◌, update,
}
use moxie_simple.ClientHandler.{eintr}
use moxie_simple.PollerEvent.{
  PollerEvent, set_bits, clear_bits, new_event, read_event, disable_write, valatile_write_event,
}
use moxie_simple.EventLoop.{
  EpollEvent, EventContext, register_at, event_add, event_ctl, count, set_poller, dispatch, Ctl,
  ctl_add, ctl_del, ctl_mod, EventLoop, Wait, failed, returned, register, loop,
}
use moxie_simple.EventLoop.Tables.{IsEpoll, IsConsistent}
use moxie_simple.EventLoop.Calls.{Returns}
use moxie_simple.EventLoop.Calls.Registration.{can_register, register_lem}
use moxie_simple.EventLoop.Handlers.{Acts, registers, sets, done}
use moxie_simple.EventLoop.Dispatch.{Behaved, reported}
use moxie_simple.Listen.{Accept, accept_again, Listener, refused, accepted, do_listen, process}
use moxie_simple.Listen.Owned.{Owned, do_listen-Owned}
use moxie_simple.Listen.Polite.{Behaves, process-Behaves}

-- The interest, and whether the next wait is interrupted.
abbrev Epoll : Type 0
Epoll = (ℕ → Option EpollEvent) × Bool

abbrev watched : Epoll → ℕ → Option EpollEvent
watched e fd = e.0 fd

-- `epoll_ctl`, which does not add what is there and needs what it changes.
abbrev control : Option EpollEvent → Epoll → Ctl → ℕ → Option EpollEvent → Option Epoll
control none e ctl_add fd (some et) = some (update e.0 fd (some et), e.1)
control (some now) e ctl_mod fd (some et) = some (update e.0 fd (some et), e.1)
control (some now) e ctl_del fd none = some (update e.0 fd none, e.1)
control now e op fd et = none

abbrev epoll_ctl : Epoll → Ctl → ℕ → Option EpollEvent → Option Epoll
epoll_ctl e op fd et = control (e.0 fd) e op fd et

-- Descriptor 5 is always ready.
abbrev ready : Option EpollEvent → List EpollEvent
ready none = []
ready (some et) = record { events = 1; ptr = et.ptr } ∷ []

abbrev epoll_wait : Epoll → Wait × Epoll
epoll_wait (interest, true) = (failed eintr, (interest, false))
epoll_wait (interest, false) = (returned (ready (interest 5)), (interest, false))

abbrev interest_of : Option Epoll → ℕ → Option EpollEvent
interest_of none q = none
interest_of (some e) q = e.0 q

shown :
    (fd q : ℕ) (o : Option EpollEvent) (e e' : Epoll)
    → some (update e.0 fd o, e.1) ≡ some e'
    → e'.0 q ≡ (if q == fd then o else e.0 q)
unfolding update
shown fd q o e e' h = ap (λ o. interest_of o q) (sym h)

control-update :
    (now : Option EpollEvent) (e e' : Epoll) (op : Ctl) (fd : ℕ) (et : Option EpollEvent)
    → control now e op fd et ≡ some e'
    → (q : ℕ) → e'.0 q ≡ (if q == fd then et else e.0 q)
unfolding update
control-update none e e' ctl_add fd (some et) h q = shown fd q (some et) e e' h
control-update (some now) e e' ctl_mod fd (some et) h q = shown fd q (some et) e e' h
control-update (some now) e e' ctl_del fd none h q = shown fd q none e e' h
control-update none e e' ctl_add fd none h q = cc
control-update none e e' ctl_del fd et h q = cc
control-update none e e' ctl_mod fd et h q = cc
control-update (some now) e e' ctl_add fd et h q = cc
control-update (some now) e e' ctl_mod fd none h q = cc
control-update (some now) e e' ctl_del fd (some et) h q = cc

epoll-IsEpoll : IsEpoll epoll_ctl watched
epoll-IsEpoll = record {
  added = λ e e' fd et. control-update (e.0 fd) e e' ctl_add fd (some et);
  modified = λ e e' fd et. control-update (e.0 fd) e e' ctl_mod fd (some et);
  deleted = λ e e' fd. control-update (e.0 fd) e e' ctl_del fd none;
}

-- The listening socket 5, whose event is at address 100.
abbrev listening : PollerEvent
listening = record { event = 3; valatile = 1; sock = 5 }

abbrev loop_state : EventLoop Epoll
loop_state = record {
  epoll = some (λ fd. none, true);
  contexts = λ fd. none;
  objects = λ a. none;
  pollers = λ p. listening;
  quit = false;
}

loop_state-IsConsistent : IsConsistent watched loop_state (λ fd. none, true)
loop_state-IsConsistent = record {
  opened = refl;
  held = λ fd a at. cc;
  listed = λ a c at. cc;
  same = λ fd. refl;
}

-- The socket is registered at address 200, with handler 1.
abbrev interest : ℕ → Option EpollEvent
interest fd = if fd == 5 then some (record { events = 3; ptr = 200 }) else none

abbrev watching : EventLoop Epoll
watching = record {
  epoll = some (interest, true);
  contexts = λ fd. if fd == 5 then some 200 else none;
  objects = λ a. if a == 200 then some (record { fd = 5; event = 100; handle = 1 }) else none;
  pollers = λ p. listening;
  quit = false;
}

watching-IsConsistent : IsConsistent watched watching (interest, true)
watching-IsConsistent = record {
  opened = refl;
  held = λ fd a at.
      (record { fd = 5; event = 100; handle = 1 }, ground (arith, at), ground (arith, at));
  listed = λ a c at. ground (arith, at);
  same = λ fd. ground arith;
}

-- The handler of the listening socket, for whom `accept` is interrupted once and gives descriptor 9.
abbrev loop_of : Option (Listener Epoll) → Option (EventLoop Epoll)
loop_of none = none
loop_of (some s) = some s.loop

abbrev serve : ℕ → ℕ → EventLoop Epoll → Option (EventLoop Epoll)
serve handler event l = loop_of (
    process epoll_ctl (refused eintr ∷ accepted 9 ∷ []) (some 201) 2 101 0 event
      (record { loop = l; closed = [] }))

abbrev readable : EpollEvent
readable = record { events = 1; ptr = 200 }

abbrev context : EventContext
context = record { fd = 5; event = 100; handle = 1 }

-- The loop when the batch has come, and when the handler is called.
abbrev woken : EventLoop Epoll
woken = record watching { epoll = some (interest, false) }

abbrev called : EventLoop Epoll
called = reported epoll_ctl watched serve woken context readable

abbrev client : PollerEvent
client = disable_write (new_event 0 9 read_event)

abbrev with_client : EventLoop Epoll
with_client = record called { pollers = set_poller called.pollers 101 client }

abbrev served : EventLoop Epoll
served = record with_client {
  epoll = some (update interest 9 (some (record { events = client.event; ptr = 201 })), false);
  contexts = update called.contexts 9 (some 201);
  objects = update called.objects 201 (some (record { fd = 9; event = 101; handle = 2 }));
}

registered : register epoll_ctl (some 201) 101 2 with_client ≡ some (true, served)
unfolding register register_at event_add event_ctl count update set_poller disable_write new_event
    set_bits clear_bits
registered = refl

calls : Acts epoll_ctl watched 5 called served
calls = sets 101 client (registers (some 201) 101 2 true refl registered (done refl))

abbrev Answers : Wait × Epoll → Type 0
Answers (failed errno, e') = Unit {0}
Answers (returned batch, e') =
    Behaved epoll_ctl watched serve batch (record watching { epoll = some e' })
    × ((l' : EventLoop Epoll)
        → dispatch serve batch (record watching { epoll = some e' }) ≡ some l'
        → Unit {0})

-- The first registration, at address 200.
register_lem_example :
    (r : Returns watched 5 false
      (some 200)
      loop_state
      (register epoll_ctl (some 200) 100 1 loop_state))
    × (r.ok
        ≡ can_register epoll_ctl watched epoll-IsEpoll (some 200) 100 loop_state (λ fd. none, true))
register_lem_example =
    register_lem epoll_ctl watched epoll-IsEpoll (some 200) 100 1 loop_state (λ fd. none, true)
      loop_state-IsConsistent refl

abbrev listener : Listener Epoll
listener = record { loop = watching; closed = [] }

-- `accept` is interrupted once and gives descriptor 9.
do_listen-Owned_example :
    Owned epoll_ctl watched epoll-IsEpoll
      (some 201)
      9
      listener
      (do_listen epoll_ctl (refused eintr ∷ accepted 9 ∷ []) (some 201) 2 101 0 100 listener)
unfolding accept_again
do_listen-Owned_example =
    do_listen-Owned epoll_ctl watched epoll-IsEpoll (refused eintr ∷ accepted 9 ∷ []) [] (some 201)
      2 101 0 100 9 listener (interest, true) refl watching-IsConsistent refl

-- `accept` is interrupted six times.
abbrev interruptions : List Accept
interruptions =
    refused eintr
    ∷ refused eintr
    ∷ refused eintr
    ∷ refused eintr
    ∷ refused eintr
    ∷ refused eintr
    ∷ []

process-Behaves_example :
    Behaves epoll_ctl watched epoll-IsEpoll 5 watching
      (process epoll_ctl interruptions (some 201) 2 101 0 100 listener)
unfolding valatile_write_event
process-Behaves_example =
    process-Behaves epoll_ctl watched epoll-IsEpoll interruptions (some 201) 2 101 0 100 listener
      (interest, true) watching-IsConsistent refl (omega arith) refl
