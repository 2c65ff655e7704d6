-- ===== src/EventLoop/Handlers.antt =====
-- What the handlers that base/EventLoop.cpp calls may do to it.
use moxie_simple.Base.{
  ℕ, ◌≡◌, ◌≢◌, ◌⊎◌, refl, subst, Bool, true, false, Option, none, some, arith, inl, inr,
}
use moxie_simple.PollerEvent.{PollerEvent}
use moxie_simple.EventLoop.{
  EpollEvent, Ctl, EventContext, EventLoop, register, modity, delete, set_poller, quit_loop,
}
use moxie_simple.EventLoop.Tables.{IsEpoll, IsConsistent}
use moxie_simple.EventLoop.Calls.{IsUnused, Returns, modity-Returns, delete-Returns}
use moxie_simple.EventLoop.Calls.Registration.{register-Returns}

-- The contexts of the other descriptors are still there.
abbrev pub Spares : {E : Type 0} → ℕ → EventLoop E → EventLoop E → Type 0
Spares own l l' =
    (a : ℕ) (c : EventContext) → l.objects a ≡ some c → c.fd ≢ own → l'.objects a ≡ some c

module _ {E : Type 0} (epoll_ctl : E → Ctl → ℕ → Option EpollEvent → Option E)
    (watched : E → ℕ → Option EpollEvent) (own : ℕ) where
  -- What a handler may do: any calls of the loop and any changes of events, but `Delete` only for
  -- the descriptor `own`.
  pub data Acts : EventLoop E → EventLoop E → Type 0 where
    done : {l l' : EventLoop E} → l' ≡ l → Acts l l'
    registers :
        {l l' l'' : EventLoop E} (fresh : Option ℕ) (event handler : ℕ) (ok : Bool)
        → IsUnused fresh l
        → register epoll_ctl fresh event handler l ≡ some (ok, l')
        → Acts l' l''
        → Acts l l''
    modifies :
        {l l' l'' : EventLoop E} (event : ℕ) (ok : Bool)
        → modity epoll_ctl event l ≡ some (ok, l')
        → Acts l' l''
        → Acts l l''
    deletes :
        {l l' l'' : EventLoop E} (event : ℕ) (ok : Bool)
        → (l.pollers event).sock ≡ own
        → delete epoll_ctl event l ≡ some (ok, l')
        → Acts l' l''
        → Acts l l''
    sets :
        {l l'' : EventLoop E} (event : ℕ) (x : PollerEvent)
        → Acts (record l { pollers = set_poller l.pollers event x }) l''
        → Acts l l''
    quits : {l l'' : EventLoop E} → Acts (quit_loop l) l'' → Acts l l''

  abbrev pub Keeps : EventLoop E → EventLoop E → Type 0
  Keeps l l' = (e' : E) × IsConsistent watched l' e' × Spares own l l'

  after_call :
      {l l' l'' : EventLoop E} (fd : ℕ) (frees : Bool) (now : Option ℕ) (ok : Bool)
      → (frees ≡ false) ⊎ (fd ≡ own)
      → (r : Returns watched fd frees now l (some (ok, l')))
      → ((e : E) → IsConsistent watched l' e → Keeps l' l'')
      → Keeps l l''
  after_call {l} {l'} {l''} fd frees now ok allowed r rest =
      let same : r.after ≡ l' = cc in
      let (e', v', spared) =
        rest r.epoll (subst (λ k. IsConsistent watched k r.epoll) same r.valid) in
      (e', v', λ a c at other. spared a c (kept a c at other) other)
    where
      not_freed : (c : EventContext) → c.fd ≢ own → (frees ≡ false) ⊎ (c.fd ≢ fd)
      not_freed c other = ground (arith, allowed)

      kept : (a : ℕ) (c : EventContext) → l.objects a ≡ some c → c.fd ≢ own → l'.objects a ≡ some c
      kept a c at other = cc (r.touches.live a c at (not_freed c other), r.returned)

  module _ (laws : IsEpoll epoll_ctl watched) where
    pub Acts-Keeps :
        {l l' : EventLoop E} (e : E) → IsConsistent watched l e → Acts l l' → Keeps l l'
    unfolding quit_loop
    Acts-Keeps {l} {l'} e v (done same) = rw same (e, v, λ a c at other. at)
    Acts-Keeps {l} {l'} e v (registers fresh event handler ok unused call more) =
        after_call (l.pollers event).sock false fresh ok (inl refl)
          (subst (Returns watched (l.pollers event).sock false fresh l) call
            (register-Returns epoll_ctl watched laws fresh event handler l e v unused))
          (λ e' v'. Acts-Keeps e' v' more)
    Acts-Keeps {l} {l'} e v (modifies event ok call more) =
        after_call (l.pollers event).sock false (l.contexts (l.pollers event).sock) ok (inl refl)
          (subst
            (Returns watched (l.pollers event).sock false (l.contexts (l.pollers event).sock) l)
            call (modity-Returns epoll_ctl watched laws event l e v))
          (λ e' v'. Acts-Keeps e' v' more)
    Acts-Keeps {l} {l'} e v (deletes event ok mine call more) =
        after_call (l.pollers event).sock true none ok (inr mine)
          (subst (Returns watched (l.pollers event).sock true none l) call
            (delete-Returns epoll_ctl watched laws event l e v))
          (λ e' v'. Acts-Keeps e' v' more)
    Acts-Keeps {l} {l'} e v (sets event x more) =
        Acts-Keeps e (record { opened = v.opened; held = v.held; listed = v.listed; same = v.same })
          more
    Acts-Keeps {l} {l'} e v (quits more) =
        Acts-Keeps e (record { opened = v.opened; held = v.held; listed = v.listed; same = v.same })
          more
