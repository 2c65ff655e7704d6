-- ===== src/Store.antt =====
-- example/Mcached/mraft/floyd/third/mcached: the key-value store behind the commands, a table of
-- 1024 slots, each a map from keys to values. Keys and values are byte strings. Calls are made one
-- at a time, under `mutex_`.
pub mod Hash
pub mod Commands
use moxie_simple.Base.{
  ℕ, zero, suc, ◌+◌, ◌*◌, ◌-◌, ◌%◌, ◌^◌, List, [], ◌∷◌, ◌++◌, Bool, ◌||◌, Option, none, some, leb,
  ◌==◌, if◌then◌else◌, length, get_or, set, replicate, bytes_eq, true, false,
}

-- `kExecOk` and the error codes that the commands return.
pub data Code : Type 0 where
  exec_ok unknow_error not_found_key exec_args_error exec_unknow_cmd : Code

-- `"+OK\r\n"`.
abbrev pub ok_reply : List ℕ
ok_reply = b'+' ∷ b'O' ∷ b'K' ∷ 13 ∷ 10 ∷ []

-- `std::unordered_map<string, string>`, as an association list with one entry for a key.
abbrev pub SlotObject : Type 0
SlotObject = List (List ℕ × List ℕ)

-- `db_.find(key)`.
unfoldable pub find : List ℕ → SlotObject → Option (List ℕ)
find key [] = none
find key ((k, v) ∷ db) = if bytes_eq k key then some v else find key db

-- `db_[key] = value`.
unfoldable pub assign : List ℕ → List ℕ → SlotObject → SlotObject
assign key value [] = (key, value) ∷ []
assign key value ((k, v) ∷ db) =
    if bytes_eq k key then (k, value) ∷ db else (k, v) ∷ assign key value db

-- The result code, the response and the slot. The response is an out parameter, which a command
-- that fails leaves as it was.
pub apply_set : List ℕ → List ℕ → List ℕ → SlotObject → Code × List ℕ × SlotObject
unfolding assign
apply_set key value res db = (exec_ok, ok_reply, assign key value db)

pub apply_get : List ℕ → List ℕ → SlotObject → Code × List ℕ
unfolding find
apply_get key res db = elim (find key db) [
  | none ↦ (not_found_key, res)
  | some value ↦ (exec_ok, value)
]

abbrev pub slot_num : ℕ
slot_num = 1024

-- `slots_`.
abbrev pub Mcached : Type 0
Mcached = List SlotObject

pub new : Mcached
new = replicate slot_num []

-- A `char` is signed: converted to `size_t`, its sign is extended.
unfoldable pub char_to_size : ℕ → ℕ
char_to_size c = if leb 128 c then c + (2 ^ 64 - 256) else c

-- The loop of `BKDRHash`, which stops at a zero byte.
pub hash_from : ℕ → List ℕ → ℕ
unfolding char_to_size
hash_from hash [] = hash
hash_from hash (c ∷ str) =
    if c == 0 then hash else hash_from ((hash * 131 + char_to_size c) % 2 ^ 64) str

pub bkdr_hash : List ℕ → ℕ
unfolding hash_from
bkdr_hash str = hash_from 0 str

unfoldable pub is_read_only : List ℕ → Bool
is_read_only name =
    bytes_eq name (b'g' ∷ b'e' ∷ b't' ∷ []) || bytes_eq name (b'G' ∷ b'E' ∷ b'T' ∷ [])

unfoldable pub is_set_name : List ℕ → Bool
is_set_name name =
    bytes_eq name (b's' ∷ b'e' ∷ b't' ∷ []) || bytes_eq name (b'S' ∷ b'E' ∷ b'T' ∷ [])

pub check_set_args : List (List ℕ) → Bool
check_set_args args = length args == 3

pub check_get_args : List (List ℕ) → Bool
check_get_args args = length args == 2

-- The slot of a key.
pub slot_index : List ℕ → ℕ
unfolding bkdr_hash
slot_index key = bkdr_hash key % slot_num

-- `InnerExecuteCommand`, which both overloads of `ExecuteCommand` are.
pub execute_command : List (List ℕ) → List ℕ → Mcached → Code × List ℕ × Mcached
unfolding is_set_name is_read_only check_set_args check_get_args slot_index apply_set apply_get
execute_command args res slots =
    if length args == 0
    then (exec_args_error, res, slots)
    else (let name = get_or args 0 [] in
        let key = get_or args 1 [] in
        let slot = get_or slots (slot_index key) [] in
        if is_set_name name
        then (if check_set_args args
            then (let (code, res', slot') = apply_set key (get_or args 2 []) res slot in
                (code, res', set slots (slot_index key) slot'))
            else (exec_args_error, res, slots))
        else (if is_read_only name
            then (if check_get_args args
                then (let (code, res') = apply_get key res slot in (code, res', slots))
                else (exec_args_error, res, slots))
            else (exec_args_error, res, slots)))

-- The abstract store: what a key is bound to.
abbrev pub lookup : Mcached → List ℕ → Option (List ℕ)
lookup slots key = find key (get_or slots (slot_index key) [])
