-- ===== src/Raft/Apply/Members.antt =====
-- `MembershipChange` of floyd/src/floyd_apply.cc.
use moxie_simple.Base.{
  ℕ, zero, suc, ◌+◌, ◌-◌, ◌<◌, ◌≤◌, ◌≡◌, ◌≢◌, refl, sym, ap, ◌∙◌, List, [], ◌∷◌, ◌++◌, true, false,
  none, some, arith, leb, ◌==◌, if◌then◌else◌, bytes_eq, bytes_eq_refl, length, length-take,
  length-set, take, set, get_elem?, get_elem?-none, Option-cases, subst, append_assoc,
  length-append, leb→le, leb→gt, Bool-cases, inl, inr, ne→==,
}
use moxie_simple.Raft.Server.{done, Database, Library, member_config_key, has_name}
use moxie_simple.Raft.Apply.{remove_at, change_loop, membership_change}

-- Once a member is removed, the loop runs past the members that are left.
runs_past :
    (fuel i count : ℕ) (name : List ℕ) (nodes : List (List ℕ))
    → i + fuel ≡ count
    → length nodes < count
    → i ≤ length nodes
    → change_loop fuel i count name false nodes ≡ none
unfolding change_loop remove_at
runs_past zero i count name nodes all fewer inside = absurd (omega arith)
runs_past (suc fuel) i count name nodes all fewer inside = elim (Option-cases (get_elem? nodes i)) [
  | inl past ↦ rw (change_loop, past) refl
  | inr (node, there) ↦
      let more : i < length nodes = (elim (Bool-cases (leb (length nodes) i)) [
        | inl out ↦ absurd (let gone = get_elem?-none nodes i (leb→le (length nodes) i out) in cc)
        | inr in_ ↦ leb→gt (length nodes) i in_
      ]) in
      let next = runs_past fuel (suc i) count name nodes (omega arith) fewer (omega arith) in
      let no_last : get_elem? nodes (count - 1) ≡ none =
        get_elem?-none nodes (count - 1) (omega arith) in
      let not_last : (i == count - 1) ≡ false = ne→== i (count - 1) (omega arith) in
      elim (Bool-cases (bytes_eq node name)) [
        | inl same ↦ rw (change_loop, there, same, remove_at, not_last, no_last) refl
        | inr other ↦ rw (change_loop, there, other) next
      ]
]

reads_past :
    (fuel i count j : ℕ) (name : List ℕ) (nodes : List (List ℕ))
    → i + fuel ≡ count
    → length nodes ≡ count
    → i ≤ j
    → j + 1 < count
    → get_elem? nodes j ≡ some name
    → change_loop fuel i count name false nodes ≡ none
unfolding change_loop remove_at
reads_past zero i count j name nodes all whole from to there = absurd (omega arith)
reads_past (suc fuel) i count j name nodes all whole from to there =
    let (node, this) = found nodes i (omega arith) in
    let (last, at_end) = found nodes (count - 1) (omega arith) in
    let not_last : (i == count - 1) ≡ false = ne→== i (count - 1) (omega arith) in
    let moved = set nodes i last in
    let left : List (List ℕ) = take (length moved - 1) moved in
    let size : length left ≡ count - 1 =
      omega (arith, length-take (length moved - 1) moved, length-set nodes i last, whole) in
    elim (Bool-cases (bytes_eq node name)) [
      | inl same ↦
          rw (change_loop, this, same, remove_at, not_last, at_end)
            (runs_past fuel (suc i) count name left (omega arith) (omega (arith, size, to))
              (omega (arith, size, from, to)))
      | inr other ↦
          let not_here : i ≢ j = λ e. absurd (differs nodes name i j node e this there other) in
          rw (change_loop, this, other)
            (reads_past fuel (suc i) count j name nodes (omega arith) whole
              (omega (arith, from, not_here)) to there)
    ]
  where
    found :
        (nodes : List (List ℕ)) (i : ℕ)
        → i < length nodes
        → (node : List ℕ) × (get_elem? nodes i ≡ some node)
    found [] i h = absurd (omega arith)
    found (x ∷ xs) zero h = (x, refl)
    found (x ∷ xs) (suc i) h = found xs i (omega arith)

    differs :
        (nodes : List (List ℕ)) (name : List ℕ) (i j : ℕ) (node : List ℕ)
        → i ≡ j
        → get_elem? nodes i ≡ some node
        → get_elem? nodes j ≡ some name
        → bytes_eq node name ≡ false
        → ⊥
    differs nodes name i j node e this there other =
        let same_place : get_elem? nodes i ≡ some name = ap (get_elem? nodes) e ∙ there in
        let same : node ≡ name = cc in
        let yes_it_is : bytes_eq node name ≡ true =
          ap (bytes_eq node) (sym same) ∙ bytes_eq_refl node in
        cc

at_middle :
    (before : List (List ℕ)) (x : List ℕ) (xs : List (List ℕ)) (i : ℕ)
    → length before ≡ i
    → get_elem? (before ++ x ∷ xs) i ≡ some x
at_middle [] x xs zero start = refl
at_middle [] x xs (suc i) start = absurd (omega arith)
at_middle (y ∷ before) x xs zero start = absurd (omega arith)
at_middle (y ∷ before) x xs (suc i) start = at_middle before x xs i (omega arith)

adds :
    (fuel i count : ℕ) (name : List ℕ) (before nodes : List (List ℕ))
    → length before ≡ i
    → length nodes ≡ fuel
    → change_loop fuel i count name true (before ++ nodes)
      ≡ some (has_name name nodes, before ++ nodes)
unfolding change_loop has_name
adds zero i count name before [] start rest = refl
adds zero i count name before (x ∷ xs) start rest = absurd (omega arith)
adds (suc fuel) i count name before [] start rest = absurd (omega arith)
adds (suc fuel) i count name before (x ∷ xs) start rest =
    let this : get_elem? (before ++ x ∷ xs) i ≡ some x = at_middle before x xs i start in
    let step : (before ++ x ∷ []) ++ xs ≡ before ++ x ∷ xs = append_assoc before (x ∷ []) xs in
    let next =
      adds fuel (suc i) count name (before ++ x ∷ []) xs
        (omega (arith, start, length-append before (x ∷ []))) (omega arith) in
    elim (Bool-cases (bytes_eq x name)) [
      | inl same ↦ rw (change_loop, this, same) refl
      | inr other ↦
          rw (change_loop, this, other)
            (subst (λ l. change_loop fuel (suc i) count name true l ≡ some (has_name name xs, l))
              step next)
    ]

module _ {D : Type 0} (rocks : Database D) (lib : Library) where
  -- Adding a server that is in the list of members changes nothing; any other is put behind the
  -- list, and the list is stored.
  pub membership_change-adds :
      (name value text : List ℕ) (members : List (List ℕ)) (db : D)
      → rocks.get member_config_key db ≡ (done, value)
      → lib.parse_members value ≡ some members
      → lib.serialize_members (members ++ name ∷ []) ≡ some text
      → membership_change rocks lib name true db
        ≡ some (if has_name name members then (done, db) else rocks.put member_config_key text db)
  unfolding membership_change
  membership_change-adds name value text members db stored parsed written =
      let loop = adds (length members) 0 (length members) name [] members refl refl in
      elim (Bool-cases (has_name name members)) [
        | inl known ↦ rw (membership_change, stored, stored, parsed, loop, known) refl
        | inr unknown ↦ rw (membership_change, stored, stored, parsed, loop, unknown, written) refl
      ]

  -- Removing a server that stands in the list of members, but not at its end, reads behind the end
  -- of the list: the loop runs on to the number of members that there were.
  pub membership_change-reads_past :
      (name value : List ℕ) (members : List (List ℕ)) (i : ℕ) (db : D)
      → rocks.get member_config_key db ≡ (done, value)
      → lib.parse_members value ≡ some members
      → get_elem? members i ≡ some name
      → i + 1 < length members
      → membership_change rocks lib name false db ≡ none
  unfolding membership_change
  membership_change-reads_past name value members i db stored parsed there inside =
      let loop =
        reads_past (length members) 0 (length members) i name members (omega arith) refl
          (omega arith) inside there in
      rw (membership_change, stored, stored, parsed, loop) refl
