-- ===== src/Raft/Stored/Init.antt =====
-- `Init` of floyd/src/raft_meta.cc.
use moxie_simple.Base.{
  ℕ, ◌≡◌, ◌≢◌, refl, sym, ap, ◌∙◌, subst, List, [], Bool, true, false, Option, none, some, arith,
  if◌then◌else◌, bytes_eq, bytes_eq-eq, ◌==◌,
}
use moxie_simple.Raft.Node.{RaftMeta}
use moxie_simple.Raft.Stored.{
  to_bytes, load_or_zero, bytes_or_empty, current_term_key, vote_for_ip_key, vote_for_port_key,
  commit_index_key, last_applied_key, get_current_term, set_current_term, get_voted_for_ip,
  set_voted_for_ip, get_voted_for_port, set_voted_for_port, get_commit_index, set_commit_index,
  get_last_applied, set_last_applied, init_meta,
}
use moxie_simple.Raft.Stored.Meta.{
  IsStore, Stores, get-put, set_current_term-Stores, set_voted_for_ip-Stores,
  set_voted_for_port-Stores, set_commit_index-Stores, set_last_applied-Stores,
}

zero_of : (x : ℕ) → (x == 0) ≡ true → 0 ≡ x
zero_of x zero = ground arith

module _ {Db : Type 0} (get : Db → List ℕ → Option (List ℕ)) (put : Db → List ℕ → List ℕ → Db)
    (store : IsStore get put) where
  -- A value that is written only where the test holds.
  written-Stores :
      (test : Bool) (db db' : Db) (m : RaftMeta)
      → (test ≡ true → Stores get db' m)
      → Stores get db m
      → Stores get (if test then db' else db) m
  written-Stores true db db' m now h = now refl
  written-Stores false db db' m now h = h

  written-IsPresent :
      (test : Bool) (db : Db) (k v j : List ℕ)
      → get db j ≢ none
      → get (if test then put db k v else db) j ≢ none
  written-IsPresent true db k v j present = ground (arith, store db k v j, present)
  written-IsPresent false db k v j present = present

  number-IsPresent :
      (n x : ℕ) (db : Db) (k v : List ℕ)
      → load_or_zero n (get db k) ≡ some x
      → get (if x == 0 then put db k v else db) k ≢ none
  unfolding load_or_zero
  number-IsPresent n x db k v read = ground (arith, get-put get put store db k v, read)

  text-IsPresent :
      (db : Db) (k v : List ℕ)
      → get (if bytes_eq (bytes_or_empty (get db k)) [] then put db k v else db) k ≢ none
  unfolding bytes_or_empty bytes_eq
  text-IsPresent db k v = ground (arith, get-put get put store db k v)

  -- If the bytes of a database in which `Put` succeeds stand for some values, `Init` succeeds and
  -- leaves the values as they are; each of the five keys is there afterwards.
  pub init_meta-Stores :
      (db : Db) (m : RaftMeta)
      → Stores get db m
      → (db' : Db) × (init_meta get put db ≡ some db')
        × Stores get db' m
        × (get db' current_term_key ≢ none)
        × (get db' vote_for_ip_key ≢ none)
        × (get db' vote_for_port_key ≢ none)
        × (get db' commit_index_key ≢ none)
        × (get db' last_applied_key ≢ none)
  unfolding init_meta get_current_term get_voted_for_ip get_voted_for_port get_commit_index
      get_last_applied set_current_term set_voted_for_ip set_voted_for_port set_commit_index
      set_last_applied
  init_meta-Stores db m h = (
    db₅,
    simp (init_meta, h.term, h₂.port, h₃.commit, h₄.applied) refl,
    h₅,
    keep₅ current_term_key (
        keep₄ current_term_key (
          keep₃ current_term_key
            (keep₂ current_term_key (number-IsPresent 8 _ db current_term_key _ h.term)))),
    keep₅ vote_for_ip_key
        (keep₄ vote_for_ip_key (keep₃ vote_for_ip_key (text-IsPresent db₁ vote_for_ip_key []))),
    keep₅ vote_for_port_key
        (keep₄ vote_for_port_key (number-IsPresent 4 _ db₂ vote_for_port_key _ h₂.port)),
    keep₅ commit_index_key (number-IsPresent 8 _ db₃ commit_index_key _ h₃.commit),
    number-IsPresent 8 _ db₄ last_applied_key _ h₄.applied,
  )
    where
      db₁ : Db
      db₁ = if m.current_term == 0 then put db current_term_key (to_bytes 8 0) else db

      h₁ : Stores get db₁ m
      h₁ =
          written-Stores (m.current_term == 0) db _ m
            (λ zero.
              subst (Stores get _)
                (ap (λ x. record m { current_term = x }) (zero_of m.current_term zero))
                (set_current_term-Stores get put store db m 0 (omega arith) h))
            h

      db₂ : Db
      db₂ =
          if bytes_eq (bytes_or_empty (get db₁ vote_for_ip_key)) []
          then put db₁ vote_for_ip_key []
          else db₁

      h₂ : Stores get db₂ m
      h₂ =
          written-Stores (bytes_eq (bytes_or_empty (get db₁ vote_for_ip_key)) []) db₁ _ m
            (λ empty.
              subst (Stores get _)
                (ap (λ (x : List ℕ). record m { voted_for = (x, m.voted_for.1) })
                  (sym (bytes_eq-eq _ [] empty) ∙ h₁.ip))
                (set_voted_for_ip-Stores get put store db₁ m [] h₁))
            h₁

      keep₂ : (j : List ℕ) → get db₁ j ≢ none → get db₂ j ≢ none
      keep₂ j present =
          written-IsPresent (bytes_eq (bytes_or_empty (get db₁ vote_for_ip_key)) []) db₁
            vote_for_ip_key [] j present

      db₃ : Db
      db₃ = if m.voted_for.1 == 0 then put db₂ vote_for_port_key (to_bytes 4 0) else db₂

      h₃ : Stores get db₃ m
      h₃ =
          written-Stores (m.voted_for.1 == 0) db₂ _ m
            (λ zero.
              subst (Stores get _)
                (ap (λ (x : ℕ). record m { voted_for = (m.voted_for.0, x) })
                  (zero_of m.voted_for.1 zero))
                (set_voted_for_port-Stores get put store db₂ m 0 (omega arith) h₂))
            h₂

      keep₃ : (j : List ℕ) → get db₂ j ≢ none → get db₃ j ≢ none
      keep₃ j present =
          written-IsPresent (m.voted_for.1 == 0) db₂ vote_for_port_key (to_bytes 4 0) j present

      db₄ : Db
      db₄ = if m.commit_index == 0 then put db₃ commit_index_key (to_bytes 8 0) else db₃

      h₄ : Stores get db₄ m
      h₄ =
          written-Stores (m.commit_index == 0) db₃ _ m
            (λ zero.
              subst (Stores get _)
                (ap (λ x. record m { commit_index = x }) (zero_of m.commit_index zero))
                (set_commit_index-Stores get put store db₃ m 0 (omega arith) h₃))
            h₃

      keep₄ : (j : List ℕ) → get db₃ j ≢ none → get db₄ j ≢ none
      keep₄ j present =
          written-IsPresent (m.commit_index == 0) db₃ commit_index_key (to_bytes 8 0) j present

      db₅ : Db
      db₅ = if m.last_applied == 0 then put db₄ last_applied_key (to_bytes 8 0) else db₄

      h₅ : Stores get db₅ m
      h₅ =
          written-Stores (m.last_applied == 0) db₄ _ m
            (λ zero.
              subst (Stores get _)
                (ap (λ x. record m { last_applied = x }) (zero_of m.last_applied zero))
                (set_last_applied-Stores get put store db₄ m 0 (omega arith) h₄))
            h₄

      keep₅ : (j : List ℕ) → get db₄ j ≢ none → get db₅ j ≢ none
      keep₅ j present =
          written-IsPresent (m.last_applied == 0) db₄ last_applied_key (to_bytes 8 0) j present
