-- ===== src/EventLoop.antt =====
-- base/EventLoop.h, base/EventLoop.cpp, base/Epoll.h and base/Epoll.cpp: the tables of an event
-- loop, and the loop itself. The kernel's epoll instance is a parameter: a type of its states with
-- the calls `epoll_ctl` and `epoll_wait`. A state contains what the kernel will report, so that
-- `epoll_wait` is a function. `none` is a failed assertion, or the use of an object that has been
-- deleted. Handlers are a parameter too. `Register`, `Modity` and `Delete` are given events that are
-- there: what they assert of the pointer is left to the caller.
pub mod Tables
pub mod Calls
pub mod Waiting
pub mod Running
pub mod Handlers
pub mod Pointers
pub mod Dispatch
use moxie_simple.Base.{
  ℕ, zero, suc, List, [], ◌∷◌, Bool, true, false, not, Option, none, some, ◌==◌, if◌then◌else◌,
  ◌>>=◌, ◌>>◌, assert, update,
}
use moxie_simple.PollerEvent.{PollerEvent, set_valatile_events}
use moxie_simple.ClientHandler.{eintr}

-- `struct epoll_event`, with the pointer of its `data`.
pub record EpollEvent : Type 0 where
  pub events : ℕ
  pub ptr : ℕ

-- EPOLL_CTL_ADD, EPOLL_CTL_DEL and EPOLL_CTL_MOD.
pub data Ctl : Type 0 where
  ctl_add ctl_del ctl_mod : Ctl

-- What `epoll_wait` did: it failed with an errno, or it returned a batch of events.
pub data Wait : Type 0 where
  failed : ℕ → Wait
  returned : List EpollEvent → Wait

-- How a round ends: with another one, with a `return`, or not at all.
pub data Next : Type 0 where
  again stop waiting : Next

-- `struct EventContext`, with pointers to a `PollerEvent` and a `Handler`.
pub record EventContext : Type 0 where
  pub fd : ℕ
  pub event : ℕ
  pub handle : ℕ

-- `epoll` is `none` when `epoll_create1` failed, `contexts` is `contexts_`, `objects` are the
-- contexts that `new` has made and `delete` has not, and `pollers` are the `PollerEvent`s, all by
-- their addresses.
pub record EventLoop (E : Type 0) : Type 0 where
  pub epoll : Option E
  pub contexts : ℕ → Option ℕ
  pub objects : ℕ → Option EventContext
  pub pollers : ℕ → PollerEvent
  pub quit : Bool

-- `contexts_.count(fd)`.
unfoldable pub count : (ℕ → Option ℕ) → ℕ → ℕ
count contexts fd = elim (contexts fd) [ none ↦ 0 | some a ↦ 1 ]

-- `SetValatileEvents` on the object that several `shared_ptr`s hold.
unfoldable pub set_poller : (ℕ → PollerEvent) → ℕ → PollerEvent → ℕ → PollerEvent
set_poller pollers p x q = if q == p then x else pollers q

-- What a call came to, with the loop that it leaves.
abbrev pub Outcome : Type 0 → Type 0
Outcome E = Option (Bool × EventLoop E)

unfoldable pub quit_loop : {E : Type 0} → EventLoop E → EventLoop E
quit_loop l = record l { quit = true }

module _ {E : Type 0} (epoll_ctl : E → Ctl → ℕ → Option EpollEvent → Option E) where
  -- `Epoll::EventCtl`, and whether `epoll_ctl` succeeded.
  unfoldable pub event_ctl : Ctl → ℕ → Option EpollEvent → Option E → Option (Bool × E)
  event_ctl op sd event none = none
  event_ctl op sd event (some e) =
      some (elim (epoll_ctl e op sd event) [ none ↦ (false, e) | some e' ↦ (true, e') ])

  unfoldable pub event_add : ℕ → EpollEvent → Option E → Option (Bool × E)
  unfolding event_ctl
  event_add sd event epoll = event_ctl ctl_add sd (some event) epoll

  unfoldable pub event_del : ℕ → Option E → Option (Bool × E)
  unfolding event_ctl
  event_del sd epoll = event_ctl ctl_del sd none epoll

  unfoldable pub event_mod : ℕ → EpollEvent → Option E → Option (Bool × E)
  unfolding event_ctl
  event_mod sd event epoll = event_ctl ctl_mod sd (some event) epoll

  -- The part of `Register` behind `new`, which gave the address `a`.
  unfoldable pub register_at : ℕ → ℕ → ℕ → EventLoop E → Outcome E
  unfolding count event_add update
  register_at a event handler l = do
    let fd = (l.pollers event).sock
    let objects = update l.objects a (some (record { fd = fd; event = event; handle = handler }))
    let contexts = update l.contexts fd (some a)
    (ok, e) ← event_add fd (record { events = (l.pollers event).event; ptr = a }) l.epoll
    if ok
        then some (true, record l { epoll = some e; contexts = contexts; objects = objects })
        else (do
          assert (count contexts fd == 1)
          some (
            false,
            record l {
              epoll = some e;
              contexts = update contexts fd none;
              objects = update objects a none;
            },
          ))

  -- The first argument is the address that `new (std::nothrow)` gives.
  unfoldable pub register : Option ℕ → ℕ → ℕ → EventLoop E → Outcome E
  unfolding count register_at
  register fresh event handler l =
      if count l.contexts (l.pollers event).sock == 0
      then elim fresh [ none ↦ some (false, l) | some a ↦ register_at a event handler l ]
      else some (false, l)

  unfoldable pub modity : ℕ → EventLoop E → Outcome E
  unfolding event_mod
  modity event l =
      let fd = (l.pollers event).sock in
      elim (l.contexts fd) [
        | none ↦ some (false, l)
        | some a ↦ do
          (ok, e) ← event_mod fd (record { events = (l.pollers event).event; ptr = a }) l.epoll
          some (ok, record l { epoll = some e })
      ]

  unfoldable pub delete : ℕ → EventLoop E → Outcome E
  unfolding event_del update
  delete event l =
      let fd = (l.pollers event).sock in
      elim (l.contexts fd) [
        | none ↦ some (false, l)
        | some a ↦ do
          (ok, e) ← event_del fd l.epoll
          (if ok
              then some (
                true,
                record l {
                  epoll = some e;
                  contexts = update l.contexts fd none;
                  objects = update l.objects a none;
                },
              )
              else some (false, record l { epoll = some e }))
      ]

  -- The constructor: `created` is what `epoll_create1` gave, and `timer` and `engine` are the event
  -- and the handler of the timer descriptor.
  unfoldable pub new_event_loop :
      Option E → (ℕ → PollerEvent) → Option ℕ → ℕ → ℕ → Option (EventLoop E)
  unfolding register
  new_event_loop created pollers fresh timer engine = do
    (ok, l) ← register fresh timer engine (record {
      epoll = created;
      contexts = λ fd. none;
      objects = λ a. none;
      pollers = pollers;
      quit = false;
    })
    assert ok
    some l

-- `Epoll::LoopWait`, which calls `epoll_wait` until it is not interrupted. `none` stands for a call
-- that is still waiting when the fuel is used up.
unfoldable pub loop_wait : {E : Type 0} → (E → Wait × E) → ℕ → E → Option (Wait × E)
loop_wait epoll_wait zero e = none
loop_wait epoll_wait (suc fuel) e =
    let (w, e') = epoll_wait e in
    elim w [
      | failed errno ↦
          let retry = loop_wait epoll_wait fuel e' in
          if errno == eintr then retry else some (failed errno, e')
      | returned batch ↦ some (returned batch, e')
    ]

-- `handle->Process(event, this)`, with what an exception leaves where it throws one.
module _ {E : Type 0} (process : ℕ → ℕ → EventLoop E → Option (EventLoop E)) where
  -- The events of one batch.
  unfoldable pub dispatch : List EpollEvent → EventLoop E → Option (EventLoop E)
  unfolding set_poller set_valatile_events
  dispatch [] l = some l
  dispatch (pet ∷ batch) l = do
    assert (not (pet.ptr == 0))
    context ← l.objects pet.ptr
    assert (not (context.handle == 0))
    assert (not (context.event == 0))
    l ← process context.handle context.event (record l {
      pollers =
          set_poller l.pollers context.event
            (set_valatile_events (l.pollers context.event) pet.events);
    })
    dispatch batch l

  -- The body of the loop behind the wait.
  unfoldable pub answered : Wait → EventLoop E → Option (Next × EventLoop E)
  unfolding dispatch
  answered (failed errno) l = some (if errno == eintr then again else stop, l)
  answered (returned batch) l = do l ← dispatch batch l; some (again, l)

  -- One round of the loop, where a wait takes as many calls as `patience` allows.
  unfoldable pub round : (E → Wait × E) → ℕ → EventLoop E → Option (Next × EventLoop E)
  unfolding loop_wait answered
  round epoll_wait patience l = elim l.quit [
    | true ↦ some (stop, l)
    | false ↦ do
      e ← l.epoll
      elim (loop_wait epoll_wait patience e) [
        | none ↦ some (waiting, l)
        | some (w, e') ↦ answered w (record l { epoll = some e' })
      ]
  ]

  -- `Loop` for a number of rounds, and where it is then: at the test of `quit_`, in a wait, or back
  -- from the call, because of `Quit` or because `epoll_wait` failed.
  unfoldable pub loop : (E → Wait × E) → ℕ → ℕ → EventLoop E → Option (Next × EventLoop E)
  unfolding round
  loop epoll_wait patience zero l = some (again, l)
  loop epoll_wait patience (suc rounds) l = do
    (next, l) ← round epoll_wait patience l
    elim next [
      | again ↦ loop epoll_wait patience rounds l
      | stop ↦ some (stop, l)
      | waiting ↦ some (waiting, l)
    ]
