-- ===== src/Listen/Owned.antt =====
-- `DoListen` of base/ListenHadler.cpp with `AfterAcceptSuccess`: an accepted descriptor is watched
-- or closed.
use moxie_simple.Base.{
  ℕ, ◌≡◌, ◌≢◌, refl, ap, subst, List, [], ◌∷◌, ◌++◌, Bool, true, false, Option, none, some,
  if◌then◌else◌, eq→==,
}
use moxie_simple.PollerEvent.{PollerEvent, new_event_lem, read_event, disable_write, clear_bits}
use moxie_simple.EventLoop.{EventLoop, EpollEvent, Ctl, register, set_poller}
use moxie_simple.EventLoop.Tables.{IsEpoll, IsConsistent}
use moxie_simple.EventLoop.Calls.{IsUnused, Touches}
use moxie_simple.EventLoop.Calls.Registration.{register-Returns, register-needs_context}
use moxie_simple.Listen.{
  Accept, client, accept_again, Listener, close, client_event, after_accept_success, do_listen,
}

module _ {E : Type 0} (epoll_ctl : E → Ctl → ℕ → Option EpollEvent → Option E)
    (watched : E → ℕ → Option EpollEvent) (laws : IsEpoll epoll_ctl watched) where
  -- How the two servers take in the descriptor of an event.
  pub record Owned (fresh : Option ℕ) (fd : ℕ) (s : Listener E) (r : Option (Listener E))
      : Type 0 where
    pub ok : Bool
    pub after : Listener E
    pub epoll : E
    pub returned : r ≡ some after
    pub valid : IsConsistent watched after.loop epoll
    pub entry : after.loop.contexts fd ≡ (if ok then fresh else s.loop.contexts fd)
    pub made : (if ok then fresh else some fd) ≢ none
    pub closed : after.closed ≡ (if ok then s.closed else s.closed ++ fd ∷ [])
    pub others : (q : ℕ) → q ≢ fd → after.loop.contexts q ≡ s.loop.contexts q

  pub client_event-IsConsistent :
      (p garbage fd : ℕ) (l : EventLoop E) (e : E)
      → IsConsistent watched l e
      → IsConsistent watched (client_event p garbage fd l) e
  unfolding client_event
  client_event-IsConsistent p garbage fd l e v = record {
    opened = v.opened;
    held = v.held;
    listed = v.listed;
    same = v.same;
  }

  client_event-sock :
      (p garbage fd : ℕ) (l : EventLoop E) → ((client_event p garbage fd l).pollers p).sock ≡ fd
  unfolding client_event set_poller disable_write clear_bits
  client_event-sock p garbage fd l = simp (eq→== p p refl) (new_event_lem garbage fd read_event)

  pub client_event-IsUnused :
      (fresh : Option ℕ) (p garbage fd : ℕ) (l : EventLoop E)
      → IsUnused fresh l
      → IsUnused fresh (client_event p garbage fd l)
  unfolding client_event
  client_event-IsUnused none p garbage fd l unused = tt
  client_event-IsUnused (some a) p garbage fd l unused = unused

  after_accept_success-Owned :
      (fresh : Option ℕ) (handler event : ℕ) (s : Listener E) (e : E)
      → IsConsistent watched s.loop e
      → IsUnused fresh s.loop
      → Owned fresh
          (s.loop.pollers event).sock
          s
          (after_accept_success epoll_ctl fresh handler event s)
  unfolding after_accept_success close
  after_accept_success-Owned fresh handler event s e v unused =
      let r = register-Returns epoll_ctl watched laws fresh event handler s.loop e v unused in
      registered r.ok r.after r.epoll r.returned r.valid r.touches
    where
      registered :
          (ok : Bool) (after : EventLoop E) (e' : E)
          → register epoll_ctl fresh event handler s.loop ≡ some (ok, after)
          → IsConsistent watched after e'
          → Touches (s.loop.pollers event).sock false fresh s.loop ok after
          → Owned fresh
              (s.loop.pollers event).sock
              s
              (after_accept_success epoll_ctl fresh handler event s)
      registered true after e' call v' t = record {
        ok = true;
        after = record s { loop = after };
        epoll = e';
        returned = simp (after_accept_success, call) refl;
        valid = v';
        entry = t.entry;
        made = register-needs_context epoll_ctl watched laws fresh event handler s.loop after call;
        closed = refl;
        others = t.others;
      }
      registered false after e' call v' t = record {
        ok = false;
        after = close (s.loop.pollers event).sock (record s { loop = after });
        epoll = e';
        returned =
            simp (after_accept_success, call)
              (ap (λ (m : ℕ → PollerEvent). some (close (m event).sock (record s { loop = after })))
                t.pollers);
        valid = v';
        entry = t.entry;
        made = λ e. cc;
        closed = refl;
        others = t.others;
      }

  client_event-Owned :
      (fresh : Option ℕ) (p garbage fd q : ℕ) (s : Listener E) {r : Option (Listener E)}
      → Owned fresh q (record s { loop = client_event p garbage fd s.loop }) r
      → Owned fresh q s r
  unfolding client_event
  client_event-Owned fresh p garbage fd q s o = record {
    ok = o.ok;
    after = o.after;
    epoll = o.epoll;
    returned = o.returned;
    valid = o.valid;
    entry = o.entry;
    made = o.made;
    closed = o.closed;
    others = o.others;
  }

  -- If the tables agree with what epoll watches, epoll answers as documented, the allocator gives
  -- no address in use, and `accept` has given a descriptor after no more interruptions than the
  -- loop bears, then `DoListen` returns. Either the descriptor's entry is the context that was
  -- made for it and it is not closed, or it is closed and its entry is as before; no other
  -- descriptor's entry changes.
  pub do_listen-Owned :
      (outcomes rest : List Accept) (fresh : Option ℕ) (handler p garbage event fd : ℕ)
      (s : Listener E) (e : E)
      → accept_again 5 outcomes ≡ some (client fd, rest)
      → IsConsistent watched s.loop e
      → IsUnused fresh s.loop
      → Owned fresh fd s (do_listen epoll_ctl outcomes fresh handler p garbage event s)
  unfolding do_listen
  do_listen-Owned outcomes rest fresh handler p garbage event fd s e how v unused =
      let o =
        after_accept_success-Owned fresh handler p
          (record s { loop = client_event p garbage fd s.loop }) e
          (client_event-IsConsistent p garbage fd s.loop e v)
          (client_event-IsUnused fresh p garbage fd s.loop unused) in
      rw (do_listen, how)
        (subst
          (λ k. Owned fresh k s (
            after_accept_success epoll_ctl fresh handler p
              (record s { loop = client_event p garbage fd s.loop })))
          (client_event-sock p garbage fd s.loop)
          (client_event-Owned fresh p garbage fd ((client_event p garbage fd s.loop).pollers p).sock
            s o))
