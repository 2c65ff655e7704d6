-- ===== src/Tests/StoreTests.antt =====
-- third/mcached at concrete commands.
use moxie_simple.Base.{ℕ, ◌≡◌, List, [], ◌∷◌}
use moxie_simple.Redis.Text.{codes}
use moxie_simple.Store.{new, lookup}
use moxie_simple.Store.Commands.{run, abstract_run, run-refines, new-empty}

abbrev history : List (List (List ℕ))
history =
    (codes "get" ∷ codes "k" ∷ [])
    ∷ (codes "SET" ∷ codes "k" ∷ codes "v" ∷ [])
    ∷ (codes "get" ∷ codes "k" ∷ [])
    ∷ (codes "del" ∷ codes "k" ∷ [])
    ∷ []

run-refines_example :
    ((run history new).0, lookup (run history new).1) ≡ abstract_run history (lookup new)
run-refines_example = run-refines history new new-empty.0
