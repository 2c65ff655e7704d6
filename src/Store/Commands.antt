-- ===== src/Store/Commands.antt =====
-- The commands of third/mcached against the abstract map from keys to values.
use mathlib.Core.Path.{fun_ext}
use moxie_simple.Base.{
  ℕ, zero, suc, ◌<◌, ◌≡◌, ◌≢◌, refl, ap, ◌∙◌, List, [], ◌∷◌, true, false, Option, none, some, arith,
  ◌==◌, if◌then◌else◌, length, get_or, set, replicate, length-set, length-replicate, bytes_eq,
  bytes_eq_refl, bytes_eq-eq, Bool-cases, Option-cases, inl, inr, ℕ_discrete, eq→==, ne→==, not,
  ◌&&◌,
}
use moxie_simple.Store.{
  Code, exec_ok, not_found_key, exec_args_error, ok_reply, SlotObject, find, assign, Mcached, new,
  slot_num, slot_index, lookup, apply_get, execute_command, is_set_name, is_read_only,
}

pub find-assign :
    (k j v : List ℕ) (db : SlotObject)
    → find j (assign k v db) ≡ (if bytes_eq k j then some v else find j db)
unfolding find assign
find-assign k j v [] = refl
find-assign k j v ((i, w) ∷ db) = ground (
  arith,
  find-assign k j v db,
  bytes_eq-eq i k,
  bytes_eq-eq i j,
  bytes_eq-eq k j,
  bytes_eq_refl j,
)

-- All 1024 slots are there.
pub record IsValid (slots : Mcached) : Type 0 where
  pub slots_there : length slots ≡ slot_num

slot_index-lt : (key : List ℕ) → slot_index key < slot_num
unfolding slot_index
slot_index-lt key = omega arith

get_or-set :
    (slots : Mcached) (i j : ℕ) (s : SlotObject)
    → i < length slots
    → get_or (set slots i s) j [] ≡ (if i == j then s else get_or slots j [])
get_or-set [] i j s h = absurd (omega arith)
get_or-set (x ∷ slots) zero zero s h = ground arith
get_or-set (x ∷ slots) zero (suc j) s h = ground arith
get_or-set (x ∷ slots) (suc i) zero s h = ground arith
get_or-set (x ∷ slots) (suc i) (suc j) s h = ground (arith, get_or-set slots i j s (omega arith))

lookup-update :
    (slots : Mcached) (k j v : List ℕ)
    → IsValid slots
    → lookup (set slots (slot_index k) (assign k v (get_or slots (slot_index k) []))) j
      ≡ (if bytes_eq k j then some v else lookup slots j)
lookup-update slots k j v w = elim (ℕ_discrete (slot_index k) (slot_index j)) [
  | yes same ↦
      rw (at j, eq→== _ _ same, find-assign k j v (get_or slots (slot_index k) []))
        (ap (λ i. if bytes_eq k j then some v else find j (get_or slots i [])) same)
  | no other ↦ rw (at j, ne→== _ _ other, differ other)
]
  where
    at :
        (j : List ℕ)
        → get_or
            (set slots (slot_index k) (assign k v (get_or slots (slot_index k) [])))
            (slot_index j)
            []
          ≡ (if slot_index k == slot_index j
              then assign k v (get_or slots (slot_index k) [])
              else get_or slots (slot_index j) [])
    at j =
        get_or-set slots (slot_index k) (slot_index j) (assign k v (get_or slots (slot_index k) []))
          (omega (arith, w.slots_there, slot_index-lt k))

    differ : slot_index k ≢ slot_index j → bytes_eq k j ≡ false
    differ other = elim (Bool-cases (bytes_eq k j)) [
      | inl e ↦ absurd (other (ap slot_index (bytes_eq-eq k j e)))
      | inr e ↦ e
    ]

-- The abstract store, and what a command does to it.
abbrev pub Map : Type 0
Map = List ℕ → Option (List ℕ)

abbrev pub bind : List ℕ → List ℕ → Map → Map
bind key value m j = if bytes_eq key j then some value else m j

abbrev pub answer_get : Option (List ℕ) → List ℕ → Code × List ℕ
answer_get none res = (not_found_key, res)
answer_get (some value) res = (exec_ok, value)

unfoldable pub abstract_execute : List (List ℕ) → List ℕ → Map → Code × List ℕ × Map
abstract_execute (name ∷ key ∷ []) res m =
    if not (is_set_name name) && is_read_only name
    then ((answer_get (m key) res).0, (answer_get (m key) res).1, m)
    else (exec_args_error, res, m)
abstract_execute (name ∷ key ∷ value ∷ []) res m =
    if is_set_name name then (exec_ok, ok_reply, bind key value m) else (exec_args_error, res, m)
abstract_execute other res m = (exec_args_error, res, m)

abbrev pub seen : Code × List ℕ × Mcached → Code × List ℕ × Map
seen r = (r.0, r.1, lookup r.2)

apply_get-answer :
    (key res : List ℕ) (db : SlotObject) → apply_get key res db ≡ answer_get (find key db) res
unfolding apply_get
apply_get-answer key res db = elim (Option-cases (find key db)) [
  | inl e ↦ rw (e, apply_get)
  | inr (v, e) ↦ rw (e, apply_get)
]

get_refines :
    (name key res : List ℕ) (slots : Mcached)
    → seen (execute_command (name ∷ key ∷ []) res slots)
      ≡ abstract_execute (name ∷ key ∷ []) res (lookup slots)
get_refines name key res slots =
    unfold execute_command abstract_execute in
    elim (Bool-cases (is_set_name name)) [
      | inl s ↦ rw s
      | inr n ↦ elim (Bool-cases (is_read_only name)) [
        | inl g ↦
            rw (n, g)
              (ap (λ r. (r.0, r.1, lookup slots))
                (apply_get-answer key res (get_or slots (slot_index key) [])))
        | inr o ↦ rw (n, o)
      ]
    ]

-- A read of a key answers its value, and leaves the table.
pub execute_command-reads :
    (name key res : List ℕ) (slots : Mcached)
    → is_set_name name ≡ false
    → is_read_only name ≡ true
    → execute_command (name ∷ key ∷ []) res slots
      ≡ ((answer_get (lookup slots key) res).0, (answer_get (lookup slots key) res).1, slots)
unfolding execute_command
execute_command-reads name key res slots no_set get =
    rw (no_set, get)
      (ap (λ r. (r.0, r.1, slots)) (apply_get-answer key res (get_or slots (slot_index key) [])))

set_refines :
    (name key value res : List ℕ) (slots : Mcached)
    → IsValid slots
    → (seen (execute_command (name ∷ key ∷ value ∷ []) res slots)
        ≡ abstract_execute (name ∷ key ∷ value ∷ []) res (lookup slots))
      × IsValid (execute_command (name ∷ key ∷ value ∷ []) res slots).2
unfolding execute_command abstract_execute
set_refines name key value res slots w = elim (Bool-cases (is_set_name name)) [
  | inl s ↦ rw s (
    ap (λ m. (exec_ok, ok_reply, m)) (fun_ext (λ j. lookup-update slots key j value w)),
    record { slots_there = length-set slots (slot_index key) _ ∙ w.slots_there },
  )
  | inr n ↦
      rw n
        (elim (Bool-cases (is_read_only name)) [ inl g ↦ rw g (refl, w) | inr o ↦ rw o (refl, w) ])
]

-- Every command, well-formed or not, returns the code and the response of the abstract command and
-- changes the bindings as it does; the table keeps its 1024 slots.
pub execute_command-refines :
    (args : List (List ℕ)) (res : List ℕ) (slots : Mcached)
    → IsValid slots
    → (seen (execute_command args res slots) ≡ abstract_execute args res (lookup slots))
      × IsValid (execute_command args res slots).2
unfolding execute_command abstract_execute
execute_command-refines [] res slots w = (refl, w)
execute_command-refines (name ∷ []) res slots w = (ground arith, ground arith)
execute_command-refines (name ∷ key ∷ []) res slots w =
    (get_refines name key res slots, ground arith)
execute_command-refines (name ∷ key ∷ value ∷ []) res slots w =
    set_refines name key value res slots w
execute_command-refines (name ∷ key ∷ value ∷ more ∷ args) res slots w =
    (ground arith, ground arith)

-- A history of commands, each with a fresh response, and what each returned.
pub run : List (List (List ℕ)) → Mcached → List (Code × List ℕ) × Mcached
run [] slots = ([], slots)
run (args ∷ commands) slots =
    let r = execute_command args [] slots in
    let rest = run commands r.2 in ((r.0, r.1) ∷ rest.0, rest.1)

pub abstract_run : List (List (List ℕ)) → Map → List (Code × List ℕ) × Map
abstract_run [] m = ([], m)
abstract_run (args ∷ commands) m =
    let r = abstract_execute args [] m in
    let rest = abstract_run commands r.2 in ((r.0, r.1) ∷ rest.0, rest.1)

-- No history of commands tells the table of slots from a map from keys to values.
pub run-refines :
    (commands : List (List (List ℕ))) (slots : Mcached)
    → IsValid slots
    → ((run commands slots).0, lookup (run commands slots).1) ≡ abstract_run commands (lookup slots)
unfolding run abstract_run
run-refines [] slots w = refl
run-refines (args ∷ commands) slots w =
    let (e, w') = execute_command-refines args [] slots w in
    rw (← e) (
      ap (λ r. (((execute_command args [] slots).0, (execute_command args [] slots).1) ∷ r.0, r.1))
        (run-refines commands (execute_command args [] slots).2 w'))

get_or-replicate : (n i : ℕ) → get_or {A = SlotObject} (replicate n []) i [] ≡ []
get_or-replicate zero i = refl
get_or-replicate (suc n) zero = refl
get_or-replicate (suc n) (suc i) = get_or-replicate n i

-- The new store has its slots and binds no key.
pub new-empty : IsValid new × ((key : List ℕ) → lookup new key ≡ none)
new-empty = (
  record { slots_there = unfold new in length-replicate {A = SlotObject} slot_num [] },
  λ key. unfold new find in ap (find key) (get_or-replicate slot_num (slot_index key)),
)

-- A name that is neither that of a write nor that of a read is refused.
pub execute_command-unknown :
    (name : List ℕ) (args : List (List ℕ)) (res : List ℕ) (slots : Mcached)
    → is_set_name name ≡ false
    → is_read_only name ≡ false
    → execute_command (name ∷ args) res slots ≡ (exec_args_error, res, slots)
unfolding execute_command
execute_command-unknown name args res slots no_set no_get =
    let some_args : (length (name ∷ args) == 0) ≡ false = ne→== _ _ (omega arith) in
    rw (execute_command, some_args, no_set, no_get) refl
