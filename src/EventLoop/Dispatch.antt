-- ===== src/EventLoop/Dispatch.antt =====
-- `Loop` of base/EventLoop.cpp uses no context that has been deleted, as long as a handler deletes
-- no event but its own.
use moxie_simple.Base.{ℕ, ◌≡◌, ◌≢◌, refl, sym, ◌∙◌, List, [], ◌∷◌, Option, some, arith, ne→==}
use moxie_simple.PollerEvent.{set_valatile_events}
use moxie_simple.EventLoop.{EpollEvent, Ctl, EventContext, EventLoop, set_poller, dispatch}
use moxie_simple.EventLoop.Tables.{IsEpoll, IsConsistent, ptr_of}
use moxie_simple.EventLoop.Handlers.{Acts, Spares, Acts-Keeps}
use moxie_simple.EventLoop.Pointers.{AllReal, AreSound, Acts-AllReal}

-- The contexts that a batch points to have not been deleted.
abbrev pub AllLive : (ℕ → Option EventContext) → List EpollEvent → Type 0
AllLive objects [] = Unit {0}
AllLive objects (pet ∷ batch) =
    ((c : EventContext) × (objects pet.ptr ≡ some c)) × AllLive objects batch

abbrev pub Absent : ℕ → List EpollEvent → Type 0
Absent a [] = Unit {0}
Absent a (pet ∷ batch) = (pet.ptr ≢ a) × Absent a batch

-- What epoll_wait(2) documents of a batch: its events are of watched descriptors, each with the
-- data that `epoll_ctl` was given for it, and no descriptor is reported twice.
abbrev pub IsBatch : (ℕ → Option EpollEvent) → List EpollEvent → Type 0
IsBatch entries [] = Unit {0}
IsBatch entries (pet ∷ batch) =
    ((fd : ℕ) × (ptr_of (entries fd) ≡ some pet.ptr)) × Absent pet.ptr batch × IsBatch entries batch

abbrev pub AllDistinct : List EpollEvent → Type 0
AllDistinct [] = Unit {0}
AllDistinct (pet ∷ batch) = Absent pet.ptr batch × AllDistinct batch

module _ {E : Type 0} (watched : E → ℕ → Option EpollEvent) where
  pub batch-AllLive :
      (l : EventLoop E) (e : E) (batch : List EpollEvent)
      → IsConsistent watched l e
      → IsBatch (watched e) batch
      → AllLive l.objects batch
  batch-AllLive l e [] v b = tt
  batch-AllLive l e (pet ∷ batch) v ((fd, at), fresh, b) =
      let (c, there, of_fd) = v.held fd pet.ptr (sym (v.same fd) ∙ at) in
      ((c, there), batch-AllLive l e batch v b)

  pub batch-AllDistinct :
      (entries : ℕ → Option EpollEvent) (batch : List EpollEvent)
      → IsBatch entries batch
      → AllDistinct batch
  batch-AllDistinct entries [] b = tt
  batch-AllDistinct entries (pet ∷ batch) (here, fresh, b) =
      (fresh, batch-AllDistinct entries batch b)

  -- Two contexts at different addresses are of different descriptors.
  descriptors_differ :
      (l : EventLoop E) (e : E) (a b : ℕ) (c d : EventContext)
      → IsConsistent watched l e
      → l.objects a ≡ some c
      → l.objects b ≡ some d
      → b ≢ a
      → d.fd ≢ c.fd
  descriptors_differ l e a b c d v at_a at_b other same =
      other (ground (arith, same, v.listed a c at_a, v.listed b d at_b))

  spared-AllLive :
      (l l' : EventLoop E) (e : E) (a : ℕ) (c : EventContext) (batch : List EpollEvent)
      → IsConsistent watched l e
      → l.objects a ≡ some c
      → Spares c.fd l l'
      → Absent a batch
      → AllLive l.objects batch
      → AllLive l'.objects batch
  spared-AllLive l l' e a c [] v at spared absent live = tt
  spared-AllLive l l' e a c (pet ∷ batch) v at spared (other, absent) ((d, there), live) = (
    (d, spared pet.ptr d there (descriptors_differ l e a pet.ptr c d v at there other)),
    spared-AllLive l l' e a c batch v at spared absent live,
  )

module _ {E : Type 0} (epoll_ctl : E → Ctl → ℕ → Option EpollEvent → Option E)
    (watched : E → ℕ → Option EpollEvent)
    (process : ℕ → ℕ → EventLoop E → Option (EventLoop E)) where
  -- The loop when the handler of a context is called for an event.
  abbrev pub reported : EventLoop E → EventContext → EpollEvent → EventLoop E
  reported l c pet = record l {
    pollers = set_poller l.pollers c.event (set_valatile_events (l.pollers c.event) pet.events);
  }

  -- Each handler, in the state in which the batch comes to it, returns, has done only what `Acts`
  -- lists, and has given the loop no null pointer.
  abbrev pub Behaved : List EpollEvent → EventLoop E → Type 0
  Behaved [] l = Unit {0}
  Behaved (pet ∷ batch) l =
      (c : EventContext)
      → l.objects pet.ptr ≡ some c
      → (l' : EventLoop E) × (process c.handle c.event (reported l c pet) ≡ some l')
        × (acts : Acts epoll_ctl watched c.fd (reported l c pet) l') × AreSound epoll_ctl watched
            c.fd acts
        × Behaved batch l'

  module _ (laws : IsEpoll epoll_ctl watched) where
    dispatch-next :
        (pet : EpollEvent) (batch : List EpollEvent) (l l' : EventLoop E) (c : EventContext)
        → l.objects pet.ptr ≡ some c
        → (pet.ptr ≢ 0) × (c.handle ≢ 0) × (c.event ≢ 0)
        → process c.handle c.event (reported l c pet) ≡ some l'
        → dispatch process (pet ∷ batch) l ≡ dispatch process batch l'
    unfolding dispatch
    dispatch-next pet batch l l' c at (some_ptr, some_handle, some_event) ran =
        simp (dispatch, ne→== _ _ some_ptr, at, ne→== _ _ some_handle, ne→== _ _ some_event, ran)
          refl

    pub dispatch-IsConsistent :
        (batch : List EpollEvent) (l : EventLoop E) (e : E)
        → IsConsistent watched l e
        → AllReal l.objects
        → AllLive l.objects batch
        → AllDistinct batch
        → Behaved batch l
        → (l' : EventLoop E) × (e' : E) × (dispatch process batch l ≡ some l')
          × IsConsistent watched l' e'
          × AllReal l'.objects
    dispatch-IsConsistent [] l e v real live distinct b = unfold dispatch in (l, e, refl, v, real)
    dispatch-IsConsistent (pet ∷ batch) l e v real ((c, at), live) (absent, distinct) behaved =
        let (l₂, ran, acts, sound, more) = behaved c at in
        let l₁ : EventLoop E = reported l c pet in
        let v₁ : IsConsistent watched l₁ e = record {
          opened = v.opened;
          held = v.held;
          listed = v.listed;
          same = v.same;
        } in
        let (e₂, v₂, spared) = Acts-Keeps epoll_ctl watched c.fd laws e v₁ acts in
        let (l', e', rest, v', real') =
          dispatch-IsConsistent batch l₂ e₂ v₂ (Acts-AllReal epoll_ctl watched c.fd acts sound real)
            (spared-AllLive watched l₁ l₂ e pet.ptr c batch v₁ at spared absent live) distinct
            more in
        (l', e', dispatch-next pet batch l l₂ c at (real pet.ptr c at) ran ∙ rest, v', real')
