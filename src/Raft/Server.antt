-- ===== src/Raft/Server.antt =====
-- The whole of a server in floyd/src: the node of the protocol, the database `db_` of the key-value
-- commands, the store `cached_` of the Redis commands, the members and the peers. RocksDB, protobuf
-- and slash are libraries: what the code calls of them are fields of `Database` and `Library`.
use moxie_simple.Base.{
  ℕ, List, [], ◌∷◌, ◌++◌, Bool, false, not, ◌&&◌, ◌||◌, Option, none, some, ◌==◌, if◌then◌else◌,
  bytes_eq,
}
use moxie_simple.Raft.{Address}
use moxie_simple.Raft.Node.{FloydImpl}
use moxie_simple.Raft.Peer.{Peer, new_peer}
use moxie_simple.Store.{Mcached}

-- `rocksdb::Status`: `ok()`, `IsNotFound()`, and any other.
pub data DbStatus : Type 0 where
  done missing failed : DbStatus

-- `Get`, `Put` and `Delete` of a database.
pub record Database (D : Type 0) : Type 0 where
  pub get : List ℕ → D → DbStatus × List ℕ
  pub put : List ℕ → List ℕ → D → DbStatus × D
  pub del : List ℕ → D → DbStatus × D

-- `Lock` of proto/floyd.proto.
pub record Lock : Type 0 where
  pub holder : List ℕ
  pub lease_end : ℕ

-- `SerializeToString` and `ParseFromString` of `Lock` and of `Membership`, and `IpPortString`.
pub record Library : Type 0 where
  pub serialize_lock : Lock → List ℕ
  pub parse_lock : List ℕ → Lock
  pub serialize_members : List (List ℕ) → Option (List ℕ)
  pub parse_members : List ℕ → Option (List (List ℕ))
  pub ip_port_string : Address → List ℕ

-- `#MEMBERCONFIG`.
abbrev pub member_config_key : List ℕ
member_config_key =
    b'#' ∷ b'M' ∷ b'E' ∷ b'M' ∷ b'B' ∷ b'E' ∷ b'R' ∷ b'C' ∷ b'O' ∷ b'N' ∷ b'F' ∷ b'I' ∷ b'G' ∷ []

-- `members` stands for a set, and `peers` for a map: they hold a name once.
pub record Server (D : Type 0) : Type 0 where
  pub node : FloydImpl
  pub db : D
  pub cached : Mcached
  pub members : List (List ℕ)
  pub peers : List (List ℕ × Peer)

unfoldable pub has_name : List ℕ → List (List ℕ) → Bool
has_name name [] = false
has_name name (x ∷ xs) = bytes_eq x name || has_name name xs

unfoldable pub insert_name : List ℕ → List (List ℕ) → List (List ℕ)
unfolding has_name
insert_name name xs = if has_name name xs then xs else xs ++ name ∷ []

unfoldable pub erase_name : List ℕ → List (List ℕ) → List (List ℕ)
erase_name name [] = []
erase_name name (x ∷ xs) =
    let rest = erase_name name xs in if bytes_eq x name then rest else x ∷ rest

unfoldable pub has_peer : List ℕ → List (List ℕ × Peer) → Bool
has_peer name [] = false
has_peer name ((x, p) ∷ xs) = bytes_eq x name || has_peer name xs

unfoldable pub erase_peer : List ℕ → List (List ℕ × Peer) → List (List ℕ × Peer)
erase_peer name [] = []
erase_peer name ((x, p) ∷ xs) =
    let rest = erase_peer name xs in if bytes_eq x name then rest else (x, p) ∷ rest

-- `GetLeader` and `HasLeader`.
unfoldable pub has_leader : FloydImpl → Bool
has_leader s = not (bytes_eq s.context.leader_address.0 [] || s.context.leader_address.1 == 0)

unfoldable pub is_leader : FloydImpl → Bool
unfolding has_leader
is_leader s =
    has_leader s
    && (bytes_eq s.context.leader_address.0 s.options.local.0
        && s.context.leader_address.1 == s.options.local.1)

module _ (lib : Library) where
  unfoldable pub is_self : List ℕ → FloydImpl → Bool
  is_self ip_port s = bytes_eq ip_port (lib.ip_port_string s.options.local)

  unfoldable pub get_leader : FloydImpl → Option (List ℕ)
  unfolding has_leader
  get_leader s = if has_leader s then some (lib.ip_port_string s.context.leader_address) else none

  unfoldable pub add_new_peer : {D : Type 0} → List ℕ → Server D → Server D
  unfolding is_self has_peer new_peer
  add_new_peer server s =
      if is_self server s.node || has_peer server s.peers
      then s
      else record s { peers = s.peers ++ (server, new_peer s.node) ∷ [] }

  unfoldable pub remove_out_peer : {D : Type 0} → List ℕ → Server D → Server D
  unfolding is_self erase_peer
  remove_out_peer server s =
      if is_self server s.node then s else record s { peers = erase_peer server s.peers }

  -- `InitPeers`, as far as the peers are created.
  unfoldable pub init_peers : {D : Type 0} → List (List ℕ) → Server D → Server D
  unfolding add_new_peer
  init_peers [] s = s
  init_peers (m ∷ ms) s = init_peers ms (add_new_peer m s)
