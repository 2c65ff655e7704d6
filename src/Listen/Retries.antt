-- ===== src/Listen/Retries.antt =====
-- `AcceptAgain` of base/ListenHadler.cpp ends.
use moxie_simple.Base.{
  ℕ, zero, suc, ◌+◌, ◌<◌, ◌≤◌, ◌≡◌, ◌≢◌, refl, ◌∙◌, List, [], ◌∷◌, some, arith, length, ◌==◌,
  if◌then◌else◌, ℕ_discrete,
}
use moxie_simple.ClientHandler.{eintr, eagain}
use moxie_simple.Listen.{Accept, refused, accepted, Accepted, client, give_up, broken, accept_again}

accept_again-interrupted :
    (retries : ℕ) (outcomes : List Accept)
    → accept_again (suc retries) (refused eintr ∷ outcomes) ≡ accept_again retries outcomes
unfolding accept_again
accept_again-interrupted retries outcomes = ground arith

accept_again-spent :
    (outcomes : List Accept)
    → accept_again zero (refused eintr ∷ outcomes) ≡ some (give_up, outcomes)
unfolding accept_again
accept_again-spent outcomes = refl

accept_again-other :
    (retries errno : ℕ) (outcomes : List Accept)
    → errno ≢ eintr
    → accept_again retries (refused errno ∷ outcomes)
      ≡ some (if errno == eagain then give_up else broken errno, outcomes)
unfolding accept_again
accept_again-other retries errno outcomes other = ground arith

-- With `retries` left, `accept` is called at most one time more than that: the loop returns once so
-- many outcomes are there, and leaves those of later calls.
pub accept_again-ends :
    (retries : ℕ) (outcomes : List Accept)
    → retries < length outcomes
    → (how : Accepted) × (rest : List Accept) × (accept_again retries outcomes ≡ some (how, rest))
      × (length outcomes ≤ length rest + suc retries)
accept_again-ends retries [] enough = absurd (omega arith)
accept_again-ends retries (accepted fd ∷ outcomes) enough =
    (client fd, outcomes, unfold accept_again in refl, omega arith)
accept_again-ends zero (refused errno ∷ outcomes) enough = elim (ℕ_discrete errno eintr) [
  | yes interrupted ↦ (give_up, outcomes, rw interrupted (accept_again-spent outcomes), omega arith)
  | no other ↦ (
    if errno == eagain then give_up else broken errno,
    outcomes,
    accept_again-other zero errno outcomes other,
    omega arith,
  )
]
accept_again-ends (suc retries) (refused errno ∷ outcomes) enough = elim (ℕ_discrete errno eintr) [
  | yes interrupted ↦
      let (how, rest, e, used) = accept_again-ends retries outcomes (omega arith) in
      (
        how,
        rest,
        rw interrupted (accept_again-interrupted retries outcomes ∙ e),
        omega (arith, used),
      )
  | no other ↦ (
    if errno == eagain then give_up else broken errno,
    outcomes,
    accept_again-other (suc retries) errno outcomes other,
    omega arith,
  )
]
