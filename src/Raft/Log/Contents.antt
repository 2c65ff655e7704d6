-- ===== src/Raft/Log/Contents.antt =====
-- The log of floyd/src/raft_log.cc as a list of entries.
use moxie_simple.Base.{
  ℕ, zero, suc, ◌+◌, ◌-◌, ◌<◌, ◌≤◌, ◌≡◌, refl, sym, ap, ◌∙◌, List, [], ◌∷◌, ◌++◌, append-nil,
  append_assoc, true, false, Option, none, some, arith, length, length-append, length-take,
  get_elem?, get_elem?-take, take, leb, ◌==◌, update, update_same, update_other, size_add, size_sub,
  size_sub_lem, size_add_lem, size_mod, le→leb, lt→ltb, ne→==, ℕ_discrete,
}
use moxie_simple.Raft.{Entry}
use moxie_simple.Raft.Log.{
  RaftLog, put_all, append, get_entry, get_last_log_term_and_index, truncate_loop, truncate_suffix,
}

-- The entries stand under the indices from one on.
pub record Holds (log : RaftLog) (entries : List Entry) : Type 0 where
  pub last : log.last_log_index ≡ length entries
  pub fits : length entries < size_mod
  pub entry_at : (i : ℕ) → i < length entries → log.db (suc i) ≡ get_elem? entries i

at_end :
    (entries : List Entry) (entry : Entry)
    → get_elem? (entries ++ entry ∷ []) (length entries) ≡ some entry
at_end [] entry = refl
at_end (x ∷ entries) entry = at_end entries entry

at_front :
    (entries new : List Entry) (i : ℕ)
    → i < length entries
    → get_elem? (entries ++ new) i ≡ get_elem? entries i
at_front [] new i h = absurd (omega arith)
at_front (x ∷ entries) new zero h = refl
at_front (x ∷ entries) new (suc i) h = at_front entries new i (omega arith)

put_one-Holds :
    (log : RaftLog) (entries : List Entry) (entry : Entry) (index : ℕ)
    → Holds log entries
    → length entries + 1 < size_mod
    → index ≡ suc (length entries)
    → Holds
        (record { db = update log.db index (some entry); last_log_index = index })
        (entries ++ entry ∷ [])
put_one-Holds log entries entry index h room e = record {
  last = e ∙ omega (arith, length-append entries (entry ∷ []));
  fits = omega (arith, length-append entries (entry ∷ []));
  entry_at = λ i small. (elim (ℕ_discrete i (length entries)) [
    | yes new ↦
        ap (λ k. update log.db k (some entry) (suc i)) (e ∙ ap suc (sym new))
        ∙ update_same log.db (suc i) (some entry)
        ∙ sym (ap (get_elem? (entries ++ entry ∷ [])) new ∙ at_end entries entry)
    | no old ↦
        let below : i < length entries =
          omega (arith, small, old, length-append entries (entry ∷ [])) in
        update_other log.db index (suc i) (some entry) (λ same. old (omega (arith, same, e)))
        ∙ h.entry_at i below
        ∙ sym (at_front entries (entry ∷ []) i below)
  ]);
}

next_index :
    (log : RaftLog) (entries : List Entry)
    → Holds log entries
    → length entries + 1 < size_mod
    → size_add log.last_log_index 1 ≡ suc (length entries)
next_index log entries h room = omega (arith, h.last, room, size_add_lem log.last_log_index 1)

-- The entries are put behind those that are there.
pub put_all-Holds :
    (new : List Entry) (log : RaftLog) (entries : List Entry)
    → Holds log entries
    → length entries + length new < size_mod
    → Holds (put_all new log) (entries ++ new)
unfolding put_all
put_all-Holds [] log entries h room = rw (append-nil entries) h
put_all-Holds (entry ∷ new) log entries h room =
    let index = size_add log.last_log_index 1 in
    rw (← append_assoc entries (entry ∷ []) new) (
      put_all-Holds new (record { db = update log.db index (some entry); last_log_index = index })
        (entries ++ entry ∷ [])
        (put_one-Holds log entries entry index h (omega (arith, room))
          (next_index log entries h (omega (arith, room))))
        (omega (arith, room, length-append entries (entry ∷ []))))

pub append-Holds :
    (log : RaftLog) (entries new : List Entry)
    → Holds log entries
    → length entries + length new < size_mod
    → Holds (append true new log).1 (entries ++ new)
      × ((append true new log).0 ≡ length entries + length new)
unfolding append
append-Holds log entries new h room =
    let put = put_all-Holds new log entries h room in (put, put.last ∙ length-append entries new)

-- A write that fails leaves the log, and returns its last index all the same.
pub append-fails :
    (log : RaftLog) (entries new : List Entry)
    → Holds log entries
    → length entries + length new < size_mod
    → append false new log ≡ (length entries, log)
unfolding append
append-fails log entries new h room =
    let put = put_all-Holds new log entries h room in
    let back : size_sub (put_all new log).last_log_index (length new) ≡ length entries = omega (
      arith,
      put.last,
      length-append entries new,
      size_sub_lem (put_all new log).last_log_index (length new),
    ) in
    rw (append, back, ← h.last) refl

pub get_elem?-take_lt :
    (entries : List Entry) (n i : ℕ) → i < n → get_elem? (take n entries) i ≡ get_elem? entries i
get_elem?-take_lt entries n i h = get_elem?-take n entries i ∙ rw (lt→ltb i n h) refl

-- Only the keys above the last index change.
truncate_loop_lem :
    (index last : ℕ) (db : ℕ → Option Entry)
    → 0 < index
    → index ≤ suc last
    → (db' : ℕ → Option Entry) × (truncate_loop index last db ≡ some (db', index - 1))
      × ((i : ℕ) → i < index → db' i ≡ db i)
unfolding truncate_loop
truncate_loop_lem index zero db pos most =
    let one : index ≡ 1 = omega arith in
    (db, rw (ne→== index 0 (omega arith), one) refl, λ i h. refl)
truncate_loop_lem index (suc last) db pos most = elim (ℕ_discrete index (suc (suc last))) [
  | yes none_gone ↦
      let above : leb index (suc last) ≡ false = ground arith in
      let back : index - 1 ≡ suc last = omega arith in (db, rw (above, back) refl, λ i h. refl)
  | no some_gone ↦
      let (db', e, keeps) =
        truncate_loop_lem index last (update db (suc last) none) pos (omega arith) in
      (
        db',
        rw (le→leb index (suc last) (omega arith), truncate_loop) e,
        λ i h. (keeps i h ∙ update_other db (suc last) i none (λ same. omega arith)),
      )
]

-- What is left are the entries below the index.
pub truncate_suffix-Holds :
    (log : RaftLog) (entries : List Entry) (index : ℕ)
    → Holds log entries
    → 0 < index
    → index ≤ suc (length entries)
    → (log' : RaftLog) × (truncate_suffix true index log ≡ some log')
      × Holds log' (take (index - 1) entries)
unfolding truncate_suffix
truncate_suffix-Holds log entries index h pos most =
    let (db', e, keeps) =
      truncate_loop_lem index log.last_log_index log.db pos (omega (arith, h.last)) in
    (
      record { db = db'; last_log_index = index - 1 },
      rw (truncate_suffix, e) refl,
      record {
        last = omega (arith, length-take (index - 1) entries);
        fits = omega (arith, h.fits, length-take (index - 1) entries);
        entry_at = λ i small.
            let below : i < index - 1 = omega (arith, small, length-take (index - 1) entries) in
            let there : i < length entries =
              omega (arith, small, length-take (index - 1) entries) in
            (keeps (suc i) (omega arith)
              ∙ h.entry_at i there
              ∙ sym (get_elem?-take_lt entries (index - 1) i below));
      },
    )

abbrev pub last_term : List Entry → ℕ
last_term [] = 0
last_term (entry ∷ []) = entry.term
last_term (entry ∷ next ∷ entries) = last_term (next ∷ entries)

last_entry :
    (x : Entry) (entries : List Entry)
    → (e : Entry) × (get_elem? (x ∷ entries) (length entries) ≡ some e)
      × (e.term ≡ last_term (x ∷ entries))
last_entry x [] = (x, refl, refl)
last_entry x (y ∷ entries) = last_entry y entries

-- The term of the last entry and its index, and zeros for an empty log.
pub get_last_log_term_and_index_lem :
    (log : RaftLog) (entries : List Entry)
    → Holds log entries
    → get_last_log_term_and_index log ≡ (last_term entries, length entries)
unfolding get_last_log_term_and_index
get_last_log_term_and_index_lem log [] h = rw (h.last) refl
get_last_log_term_and_index_lem log (x ∷ entries) h =
    let (e, there, term) = last_entry x entries in
    let found : log.db log.last_log_index ≡ some e =
      ap log.db h.last ∙ h.entry_at (length entries) (omega arith) ∙ there in
    let some_left : (log.last_log_index == 0) ≡ false = ne→== _ _ (omega (arith, h.last)) in
    rw (some_left, get_last_log_term_and_index, found, term, h.last) refl

-- `GetEntry` of an index in the log.
pub get_entry_lem :
    (log : RaftLog) (entries : List Entry) (i : ℕ)
    → Holds log entries
    → i < length entries
    → get_entry log (suc i) ≡ get_elem? entries i
unfolding get_entry
get_entry_lem log entries i h small = h.entry_at i small
