-- ===== src/Raft/Options.antt =====
-- floyd/include/floyd_options.h and floyd/src/floyd_options.cc: the options of a server. A position
-- in a string is the rest of the string from there, and `npos` the empty rest. `Dump` and
-- `ToString` are left out.
pub mod Split
use moxie_simple.Base.{
  ℕ, zero, suc, ◌+◌, ◌%◌, List, [], ◌∷◌, ◌++◌, Bool, true, false, ◌||◌, not, ◌==◌, if◌then◌else◌,
  length, Option, none, some,
}
use moxie_simple.Redis.Text.{codes}

-- `find_first_not_of(delim, pos)` and `find(delim, pos)`, from a position on.
unfoldable pub find_first_not_of : ℕ → List ℕ → List ℕ
find_first_not_of delim [] = []
find_first_not_of delim (c ∷ rest) =
    let next = find_first_not_of delim rest in if c == delim then next else c ∷ rest

unfoldable pub find : ℕ → List ℕ → List ℕ
find delim [] = []
find delim (c ∷ rest) = let next = find delim rest in if c == delim then c ∷ rest else next

-- `substr(prev_pos, pos - prev_pos)`: the characters up to the next `delim`.
unfoldable pub token : ℕ → List ℕ → List ℕ
token delim [] = []
token delim (c ∷ rest) = let more = token delim rest in if c == delim then [] else c ∷ more

abbrev pub is_npos : List ℕ → Bool
is_npos [] = true
is_npos (c ∷ rest) = false

-- The loop of `split`. A string of n characters has no more than n tokens.
unfoldable pub split_loop : ℕ → ℕ → List ℕ → List ℕ → List (List ℕ)
unfolding find_first_not_of find token
split_loop delim zero prev_pos pos = []
split_loop delim (suc fuel) prev_pos pos =
    let prev_next = find_first_not_of delim pos in
    let rest = split_loop delim fuel prev_next (find delim prev_next) in
    if not (is_npos prev_pos) || not (is_npos pos) then token delim prev_pos ∷ rest else []

unfoldable pub split : List ℕ → ℕ → List (List ℕ)
unfolding split_loop find_first_not_of find
split str delim =
    let prev_pos = find_first_not_of delim str in
    split_loop delim (suc (length str)) prev_pos (find delim prev_pos)

pub record Options : Type 0 where
  pub members : List (List ℕ)
  pub local_ip : List ℕ
  pub local_port : ℕ
  pub path : List ℕ
  pub check_leader_us : ℕ
  pub heartbeat_us : ℕ
  pub append_entries_size_once : ℕ
  pub append_entries_count_once : ℕ
  pub single_mode : Bool

-- The constructor without arguments.
pub default_options : Options
default_options = record {
  members = [];
  local_ip = codes "127.0.0.1";
  local_port = 10086;
  path = codes "/data/floyd";
  check_leader_us = 6000000;
  heartbeat_us = 3000000;
  append_entries_size_once = 10240000;
  append_entries_count_once = 102400;
  single_mode = false;
}

-- `SetMembers`.
unfoldable pub set_members : List ℕ → Options → Options
unfolding split
set_members cluster_string o =
    let members = split cluster_string b',' in
    record o {
      members = members;
      single_mode = (if length members == 1 then true else o.single_mode);
    }

-- The constructor with arguments, given what `rand` returned.
unfoldable pub new_options : List ℕ → List ℕ → ℕ → List ℕ → ℕ → Options
unfolding split
new_options cluster_string local_ip local_port path rand =
    let members = split cluster_string b',' in
    record {
      members = members;
      local_ip = local_ip;
      local_port = local_port;
      path = path;
      check_leader_us = rand % 2000000 + 6000000;
      heartbeat_us = 3000000;
      append_entries_size_once = 10240000;
      append_entries_count_once = 102400;
      single_mode = (if length members == 1 then true else false);
    }
