-- ===== src/EventLoop/Tables.antt =====
-- The tables of base/EventLoop.cpp and the descriptors that epoll watches agree.
use moxie_simple.Base.{
  ℕ, ◌≡◌, refl, sym, ◌∙◌, Option, none, some, arith, ◌==◌, if◌then◌else◌, update, ℕ_discrete, eq→==,
  ne→==,
}
use moxie_simple.EventLoop.{EpollEvent, Ctl, ctl_add, ctl_del, ctl_mod, EventContext, EventLoop}

-- What epoll_ctl(2) documents: a call that succeeds changes the entry of its descriptor and no
-- other.
pub record IsEpoll {E : Type 0} (epoll_ctl : E → Ctl → ℕ → Option EpollEvent → Option E)
    (watched : E → ℕ → Option EpollEvent) : Type 0 where
  pub added :
      (e e' : E) (fd : ℕ) (et : EpollEvent)
      → epoll_ctl e ctl_add fd (some et) ≡ some e'
      → (q : ℕ) → watched e' q ≡ (if q == fd then some et else watched e q)
  pub modified :
      (e e' : E) (fd : ℕ) (et : EpollEvent)
      → epoll_ctl e ctl_mod fd (some et) ≡ some e'
      → (q : ℕ) → watched e' q ≡ (if q == fd then some et else watched e q)
  pub deleted :
      (e e' : E) (fd : ℕ)
      → epoll_ctl e ctl_del fd none ≡ some e'
      → (q : ℕ) → watched e' q ≡ (if q == fd then none else watched e q)

abbrev pub ptr_of : Option EpollEvent → Option ℕ
ptr_of none = none
ptr_of (some et) = some et.ptr

-- Every entry of `contexts_` points to a context of its descriptor that has not been deleted, no
-- context is lost, and epoll watches the descriptors of `contexts_`, with their contexts as data.
pub record IsConsistent {E : Type 0} (watched : E → ℕ → Option EpollEvent) (l : EventLoop E) (e : E)
    : Type 0 where
  pub opened : l.epoll ≡ some e
  pub held :
      (fd a : ℕ)
      → l.contexts fd ≡ some a
      → (c : EventContext) × (l.objects a ≡ some c) × (c.fd ≡ fd)
  pub listed : (a : ℕ) (c : EventContext) → l.objects a ≡ some c → l.contexts c.fd ≡ some a
  pub same : (fd : ℕ) → ptr_of (watched e fd) ≡ l.contexts fd

module _ {E : Type 0} (watched : E → ℕ → Option EpollEvent) where
  -- Only the interest of a descriptor that is watched changes.
  pub refreshed-IsConsistent :
      (l : EventLoop E) (e e' : E) (fd a events : ℕ)
      → IsConsistent watched l e
      → l.contexts fd ≡ some a
      → ((q : ℕ)
          → watched e' q
            ≡ (if q == fd then some (record { events = events; ptr = a }) else watched e q))
      → IsConsistent watched (record l { epoll = some e' }) e'
  refreshed-IsConsistent l e e' fd a events v here now = record {
    opened = refl;
    held = v.held;
    listed = v.listed;
    same = λ q. ground (arith, now q, v.same q, here);
  }

  pub entered-IsConsistent :
      (l : EventLoop E) (e e' : E) (fd a events : ℕ) (c : EventContext)
      → IsConsistent watched l e
      → c.fd ≡ fd
      → l.contexts fd ≡ none
      → l.objects a ≡ none
      → ((q : ℕ)
          → watched e' q
            ≡ (if q == fd then some (record { events = events; ptr = a }) else watched e q))
      → IsConsistent watched
          (record l {
            epoll = some e';
            contexts = update l.contexts fd (some a);
            objects = update l.objects a (some c);
          })
          e'
  unfolding update
  entered-IsConsistent l e e' fd a events c v of_fd no_entry unused now = record {
    opened = refl;
    held = λ q b at. elim (ℕ_discrete q fd) [
      | yes this ↦ (c, ground (arith, at), of_fd ∙ sym this)
      | no other ↦
          let (c', there, of_q) = v.held q b (rw (ne→== q fd other) at at) in
          (c', ground (arith, there, unused), of_q)
    ];
    listed = λ b c' at. ground (arith, at, v.listed b c', no_entry, of_fd);
    same = λ q. ground (arith, now q, v.same q);
  }

  pub left-IsConsistent :
      (l : EventLoop E) (e e' : E) (fd a : ℕ)
      → IsConsistent watched l e
      → l.contexts fd ≡ some a
      → ((q : ℕ) → watched e' q ≡ (if q == fd then none else watched e q))
      → IsConsistent watched
          (record l {
            epoll = some e';
            contexts = update l.contexts fd none;
            objects = update l.objects a none;
          })
          e'
  unfolding update
  left-IsConsistent l e e' fd a v here now = record {
    opened = refl;
    held = λ q b at. elim (ℕ_discrete q fd) [
      | yes this ↦ cc (rw (eq→== q fd this) at at)
      | no other ↦
          let (c', there, of_q) = v.held q b (rw (ne→== q fd other) at at) in
          let (c, here', of_fd) = v.held fd a here in
          (c', ground (arith, there, here', of_q, of_fd, v.listed b c' there, here), of_q)
    ];
    listed = λ b c' at. ground (arith, at, v.listed b c', v.held fd a here, here);
    same = λ q. ground (arith, now q, v.same q);
  }
