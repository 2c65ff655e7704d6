-- ===== src/Raft/Stored.antt =====
-- floyd/src/raft_meta.cc and the keys of floyd/src/raft_log.cc at the level of bytes: what RaftMeta
-- and RaftLog make of the database that they share. The database is a parameter, with its `Get` and
-- `Put`. `none` is a `memcpy` that reads behind the end of a string.
pub mod Bytes
pub mod Meta
pub mod Init
pub mod Opening
use moxie_simple.Base.{
  ℕ, zero, suc, ◌+◌, ◌-◌, ◌*◌, ◌/◌, ◌%◌, List, [], ◌∷◌, ◌++◌, Option, none, some, ltb, ◌==◌,
  if◌then◌else◌, ◌>>=◌, length, take, drop, bytes_eq, Bool, size_add,
}
use moxie_simple.Redis.Text.{codes}

-- The bytes of a number in memory, lowest first, and the number that bytes stand for.
unfoldable pub to_bytes : ℕ → ℕ → List ℕ
to_bytes zero x = []
to_bytes (suc n) x = (x % 256) ∷ to_bytes n (x / 256)

unfoldable pub of_bytes : List ℕ → ℕ
of_bytes [] = 0
of_bytes (b ∷ bytes) = b + 256 * of_bytes bytes

-- `memcpy(&ans, buf.data(), n)`.
unfoldable pub load : ℕ → List ℕ → Option ℕ
unfolding of_bytes
load n buf = if ltb (length buf) n then none else some (of_bytes (take n buf))

unfoldable pub reverse_onto : List ℕ → List ℕ → List ℕ
reverse_onto [] out = out
reverse_onto (b ∷ bytes) out = reverse_onto bytes (b ∷ out)

-- `UintToBitStr`: `htobe64` turns the eight bytes around.
unfoldable pub uint_to_bit_str : ℕ → List ℕ
unfolding to_bytes reverse_onto
uint_to_bit_str num = reverse_onto (to_bytes 8 num) []

unfoldable pub bit_str_to_uint : List ℕ → Option ℕ
unfolding reverse_onto of_bytes
bit_str_to_uint str =
    if ltb (length str) 8 then none else some (of_bytes (reverse_onto (take 8 str) []))

abbrev pub current_term_key : List ℕ
current_term_key = codes "CURRENTTERM"

abbrev pub vote_for_ip_key : List ℕ
vote_for_ip_key = codes "VOTEFORIP"

abbrev pub vote_for_port_key : List ℕ
vote_for_port_key = codes "VOTEFORPORT"

abbrev pub commit_index_key : List ℕ
commit_index_key = codes "COMMITINDEX"

abbrev pub last_applied_key : List ℕ
last_applied_key = codes "APPLYINDEX"

abbrev pub fencing_token_key : List ℕ
fencing_token_key = codes "FENCINGTOKEN"

-- A number that is not found is 0.
unfoldable pub load_or_zero : ℕ → Option (List ℕ) → Option ℕ
unfolding load
load_or_zero n none = some 0
load_or_zero n (some buf) = load n buf

unfoldable pub bytes_or_empty : Option (List ℕ) → List ℕ
bytes_or_empty none = []
bytes_or_empty (some buf) = buf

module _ {Db : Type 0} (get : Db → List ℕ → Option (List ℕ)) (put : Db → List ℕ → List ℕ → Db) where
  unfoldable pub get_current_term : Db → Option ℕ
  unfolding load_or_zero
  get_current_term db = load_or_zero 8 (get db current_term_key)

  unfoldable pub set_current_term : ℕ → Db → Db
  unfolding to_bytes
  set_current_term current_term db = put db current_term_key (to_bytes 8 current_term)

  unfoldable pub get_voted_for_ip : Db → List ℕ
  unfolding bytes_or_empty
  get_voted_for_ip db = bytes_or_empty (get db vote_for_ip_key)

  unfoldable pub set_voted_for_ip : List ℕ → Db → Db
  set_voted_for_ip ip db = put db vote_for_ip_key ip

  unfoldable pub get_voted_for_port : Db → Option ℕ
  unfolding load_or_zero
  get_voted_for_port db = load_or_zero 4 (get db vote_for_port_key)

  unfoldable pub set_voted_for_port : ℕ → Db → Db
  unfolding to_bytes
  set_voted_for_port port db = put db vote_for_port_key (to_bytes 4 port)

  unfoldable pub get_commit_index : Db → Option ℕ
  unfolding load_or_zero
  get_commit_index db = load_or_zero 8 (get db commit_index_key)

  unfoldable pub set_commit_index : ℕ → Db → Db
  unfolding to_bytes
  set_commit_index commit_index db = put db commit_index_key (to_bytes 8 commit_index)

  unfoldable pub get_last_applied : Db → Option ℕ
  unfolding load_or_zero
  get_last_applied db = load_or_zero 8 (get db last_applied_key)

  unfoldable pub set_last_applied : ℕ → Db → Db
  unfolding to_bytes
  set_last_applied last_applied db = put db last_applied_key (to_bytes 8 last_applied)

  -- `RaftMeta::Init`.
  unfoldable pub init_meta : Db → Option Db
  unfolding get_current_term get_voted_for_ip get_voted_for_port get_commit_index get_last_applied
      set_current_term set_voted_for_ip set_voted_for_port set_commit_index set_last_applied
  init_meta db = do
    term ← get_current_term db
    let db = if term == 0 then set_current_term 0 db else db
    let db = if bytes_eq (get_voted_for_ip db) [] then set_voted_for_ip [] db else db
    port ← get_voted_for_port db
    let db = if port == 0 then set_voted_for_port 0 db else db
    commit ← get_commit_index db
    let db = if commit == 0 then set_commit_index 0 db else db
    applied ← get_last_applied db
    some (if applied == 0 then set_last_applied 0 db else db)

  -- `GetNewFencingToken`. The `ans = 0` for a token that is not found is overwritten at once.
  unfoldable pub get_new_fencing_token : Db → Option (ℕ × Db)
  unfolding load to_bytes bytes_or_empty
  get_new_fencing_token db = do
    ans ← load 8 (bytes_or_empty (get db fencing_token_key))
    some (size_add ans 1, put db fencing_token_key (to_bytes 8 (size_add ans 1)))

-- The constructor of RaftLog, given the keys of the database in the order of its iterator, last
-- first: it steps back over five keys from the last one. `none` is also a `Prev` behind the first key.
unfoldable pub open_last_log_index : List (List ℕ) → Option ℕ
unfolding bit_str_to_uint
open_last_log_index [] = some 0
open_last_log_index (a ∷ b ∷ c ∷ d ∷ e ∷ []) = some 0
open_last_log_index (a ∷ b ∷ c ∷ d ∷ e ∷ key ∷ keys) = bit_str_to_uint key
open_last_log_index others = none
