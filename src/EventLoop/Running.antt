-- ===== src/EventLoop/Running.antt =====
-- `Loop` of base/EventLoop.cpp, for any number of rounds.
use moxie_simple.Base.{false, ℕ, zero, suc, ◌≡◌, List, Option, some}
use moxie_simple.EventLoop.{EpollEvent, Ctl, EventLoop, Wait, returned, loop_wait, dispatch, Next}
use moxie_simple.EventLoop.Tables.{IsEpoll, IsConsistent}
use moxie_simple.EventLoop.Pointers.{AllReal}
use moxie_simple.EventLoop.Dispatch.{Behaved}
use moxie_simple.EventLoop.Waiting.{IsWait}

module _ {E : Type 0} (epoll_ctl : E → Ctl → ℕ → Option EpollEvent → Option E)
    (watched : E → ℕ → Option EpollEvent) (process : ℕ → ℕ → EventLoop E → Option (EventLoop E))
    (epoll_wait : E → Wait × E) (laws : IsEpoll epoll_ctl watched)
    (waits : IsWait epoll_wait watched) where
  abbrev pub Continues : Option (Next × EventLoop E) → Type 0
  Continues r =
      (next : Next) × (l' : EventLoop E) × (e' : E) × (r ≡ some (next, l'))
      × IsConsistent watched l' e'
      × AllReal l'.objects

  -- The handlers, called as the loop calls them in its rounds, are as `Behaved` says.
  abbrev pub BehavedRounds : ℕ → ℕ → EventLoop E → Type 0
  BehavedRounds patience zero l = Unit {0}
  BehavedRounds patience (suc rounds) l =
      (e e' : E) (batch : List EpollEvent)
      → l.quit ≡ false
      → l.epoll ≡ some e
      → loop_wait epoll_wait patience e ≡ some (returned batch, e')
      → Behaved epoll_ctl watched process batch (record l { epoll = some e' })
        × ((l' : EventLoop E)
            → dispatch process batch (record l { epoll = some e' }) ≡ some l'
            → BehavedRounds patience rounds l')
