-- ===== src/EventLoop/Waiting.antt =====
-- `LoopWait` of base/Epoll.cpp, after any number of interruptions.
use Prim.Native.Nat.add
use moxie_simple.Base.{
  ℕ_discrete, ℕ, zero, suc, ◌≡◌, ◌≢◌, refl, sym, ap, subst, ◌∙◌, List, Option, some, arith, ◌⊎◌,
  inl, inr, ◌+◌,
}
use moxie_simple.EventLoop.{EpollEvent, Wait, failed, returned, loop_wait}
use moxie_simple.ClientHandler.{eintr}
use moxie_simple.EventLoop.Dispatch.{IsBatch}

-- What epoll_wait(2) documents: it changes no interest, and reports of watched descriptors.
pub record IsWait {E : Type 0} (epoll_wait : E → Wait × E) (watched : E → ℕ → Option EpollEvent)
    : Type 0 where
  pub quiet : (e : E) (q : ℕ) → watched (epoll_wait e).1 q ≡ watched e q
  pub reports :
      (e : E) (batch : List EpollEvent)
      → (epoll_wait e).0 ≡ returned batch
      → IsBatch (watched (epoll_wait e).1) batch

pub Wait-cases :
    (w : Wait)
    → ((errno : ℕ) × (w ≡ failed errno)) ⊎ ((batch : List EpollEvent) × (w ≡ returned batch))
Wait-cases (failed errno) = inl (errno, refl)
Wait-cases (returned batch) = inr (batch, refl)

is_interrupted : (w : Wait) → (w ≡ failed eintr) ⊎ (w ≢ failed eintr)
is_interrupted (failed errno) = elim (ℕ_discrete errno eintr) [
  | yes same ↦ inl (ap failed same)
  | no other ↦ inr (λ (e : failed errno ≡ failed eintr). other (cc e))
]
is_interrupted (returned batch) = inr (λ (e : returned batch ≡ failed eintr). cc e)

some_inj : {A : Type 0} {x y : A} → some x ≡ some y → x ≡ y
some_inj e = cc e

module _ {E : Type 0} (epoll_wait : E → Wait × E) where
  -- The state of epoll after some waits.
  abbrev pub after_waits : ℕ → E → E
  after_waits zero e = e
  after_waits (suc n) e = after_waits n (epoll_wait e).1

  abbrev pub Interrupted : ℕ → E → Type 0
  Interrupted zero e = Unit {0}
  Interrupted (suc n) e = ((epoll_wait e).0 ≡ failed eintr) × Interrupted n (epoll_wait e).1

  loop_wait-next :
      (fuel : ℕ) (e : E)
      → (epoll_wait e).0 ≢ failed eintr
      → loop_wait epoll_wait (suc fuel) e ≡ some (epoll_wait e)
  unfolding loop_wait
  loop_wait-next fuel e other = elim (Wait-cases (epoll_wait e).0) [
    | inl (errno, w) ↦ ground (arith, w, other)
    | inr (batch, w) ↦ ground (arith, w)
  ]

  loop_wait-again :
      (fuel : ℕ) (e : E)
      → (epoll_wait e).0 ≡ failed eintr
      → loop_wait epoll_wait (suc fuel) e ≡ loop_wait epoll_wait fuel (epoll_wait e).1
  unfolding loop_wait
  loop_wait-again fuel e interrupted = rw (loop_wait, interrupted) refl

  -- `LoopWait` returns after any number of interruptions, with what the first wait that is not
  -- interrupted gives, as many calls are enough as that takes.
  pub loop_wait_lem :
      (n spare : ℕ) (e : E)
      → Interrupted n e
      → (epoll_wait (after_waits n e)).0 ≢ failed eintr
      → loop_wait epoll_wait (n + suc spare) e ≡ some (epoll_wait (after_waits n e))
  loop_wait_lem zero spare e i other = rw add.zero (loop_wait-next spare e other)
  loop_wait_lem (suc n) spare e (interrupted, i) other = rw (add.suc n (suc spare)) (
      loop_wait-again (n + suc spare) e interrupted
      ∙ loop_wait_lem n spare (epoll_wait e).1 i other)

  -- What `LoopWait` gives is no interruption, it is what some wait gave, and the interest is
  -- unchanged.
  pub record Waited (watched : E → ℕ → Option EpollEvent) (e : E) (w : Wait) (e' : E) : Type 0 where
    pub quiet : (q : ℕ) → watched e' q ≡ watched e q
    pub reports : (batch : List EpollEvent) → w ≡ returned batch → IsBatch (watched e') batch
    pub other : w ≢ failed eintr

  pub loop_wait-Waited :
      (watched : E → ℕ → Option EpollEvent)
      → IsWait epoll_wait watched
      → (fuel : ℕ) (e : E) (w : Wait) (e' : E) → loop_wait epoll_wait fuel e ≡ some (w, e')
      → Waited watched e w e'
  loop_wait-Waited watched laws zero e w e' returns = unfold loop_wait in cc
  loop_wait-Waited watched laws (suc fuel) e w e' returns = elim (is_interrupted (epoll_wait e).0) [
    | inl interrupted ↦
        let more =
          loop_wait-Waited watched laws fuel (epoll_wait e).1 w e'
            (sym (loop_wait-again fuel e interrupted) ∙ returns) in
        record {
          quiet = λ q. more.quiet q ∙ laws.quiet e q;
          reports = more.reports;
          other = more.other;
        }
    | inr other ↦
        subst (λ (r : Wait × E). Waited watched e r.0 r.1)
          (some_inj (sym (loop_wait-next fuel e other) ∙ returns))
          (record { quiet = laws.quiet e; reports = laws.reports e; other = other })
  ]
