-- ===== src/Raft/Stored/Opening.antt =====
-- The constructor of floyd/src/raft_log.cc finds the last index of the log, which is stored with
-- the values of floyd/src/raft_meta.cc in one database.
use moxie_simple.Base.{
  ℕ, zero, suc, ◌*◌, ◌/◌, ◌%◌, ◌^◌, ◌<◌, ◌≡◌, refl, ◌∙◌, List, [], ◌∷◌, ◌++◌, true, some, arith,
  lt→ltb,
}
use moxie_simple.Raft.Stored.{
  current_term_key, vote_for_ip_key, vote_for_port_key, commit_index_key, last_applied_key,
  uint_to_bit_str, open_last_log_index, reverse_onto, to_bytes,
}
use moxie_simple.Raft.Stored.Bytes.{lex_lt, lex_lt-uint_to_bit_str, bit_str_to_uint-uint_to_bit_str}

-- The keys of the entries from one to the given index, the last first.
unfoldable pub log_keys : ℕ → List (List ℕ)
log_keys zero = []
log_keys (suc n) = uint_to_bit_str (suc n) ∷ log_keys n

-- The keys of RaftMeta, the last first.
abbrev pub meta_keys : List (List ℕ)
meta_keys =
    vote_for_port_key ∷ vote_for_ip_key ∷ current_term_key ∷ commit_index_key ∷ last_applied_key
    ∷ []

-- A list of keys goes strictly downwards, as an iterator gives them backwards.
abbrev pub IsDescending : List (List ℕ) → Type 0
IsDescending [] = Unit {0}
IsDescending (k ∷ []) = Unit {0}
IsDescending (k ∷ k' ∷ keys) = (lex_lt k' k ≡ true) × IsDescending (k' ∷ keys)

log_keys-IsDescending : (n : ℕ) → n < 2 ^ 64 → IsDescending (log_keys n)
unfolding log_keys
log_keys-IsDescending zero small = tt
log_keys-IsDescending (suc zero) small = tt
log_keys-IsDescending (suc (suc n)) small = (
  lex_lt-uint_to_bit_str (suc n) (suc (suc n)) (omega arith) small ∙ lt→ltb _ _ (omega arith),
  log_keys-IsDescending (suc n) (omega arith),
)

lex_lt-head : (x y : ℕ) (xs ys : List ℕ) → x < y → lex_lt (x ∷ xs) (y ∷ ys) ≡ true
unfolding lex_lt
lex_lt-head x y xs ys less = ground arith

-- The first byte of a key is less than that of a letter.
entry_below_meta : (n : ℕ) → n < 65 * 2 ^ 56 → lex_lt (uint_to_bit_str n) last_applied_key ≡ true
unfolding uint_to_bit_str reverse_onto to_bytes
entry_below_meta n small =
    lex_lt-head (n / 256 / 256 / 256 / 256 / 256 / 256 / 256 % 256) 65 _ _ (omega arith)

-- With fewer than 65 * 2 ^ 56 entries, the keys of the entries and of RaftMeta stand in this order,
-- and the index that the constructor finds is that of the last entry.
pub open_last_log_index_lem :
    (n : ℕ)
    → n < 65 * 2 ^ 56
    → IsDescending (meta_keys ++ log_keys n)
      × (open_last_log_index (meta_keys ++ log_keys n) ≡ some n)
unfolding open_last_log_index log_keys lex_lt
open_last_log_index_lem zero small = ((refl, (refl, (refl, (refl, tt)))), refl)
open_last_log_index_lem (suc n) small = (
  (
    refl,
    (
      refl,
      (refl, (refl, (entry_below_meta (suc n) small, log_keys-IsDescending (suc n) (omega arith)))),
    ),
  ),
  bit_str_to_uint-uint_to_bit_str (suc n) (omega arith),
)
