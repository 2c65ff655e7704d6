-- ===== src/Socket.antt =====
-- base/Socket.cpp and base/NetAddress.cpp: the wrappers of the socket calls and the address that
-- they take. What a system call returned is an argument; `inet_pton` is a parameter.
use moxie_simple.Base.{
  ℕ, ◌+◌, ◌-◌, ◌*◌, ◌/◌, ◌%◌, ◌^◌, ◌<◌, ◌≡◌, refl, arith, List, Bool, true, false, ◌==◌,
  if◌then◌else◌, bit_or,
}

-- A system call returned a number, or -1 and an errno.
pub data Ret : Type 0 where
  ret : ℕ → Ret
  error : ℕ → Ret

abbrev pub einprogress : ℕ
einprogress = 115

-- O_NONBLOCK, FD_CLOEXEC, SOCK_NONBLOCK and SOCK_CLOEXEC.
abbrev pub o_nonblock : ℕ
o_nonblock = 2048

abbrev pub fd_cloexec : ℕ
fd_cloexec = 1

abbrev pub sock_nonblock : ℕ
sock_nonblock = 2048

abbrev pub sock_cloexec : ℕ
sock_cloexec = 2 ^ 19

-- An `int` as its bits: -1 stands for all of them.
abbrev pub int_of : Ret → ℕ
int_of (ret n) = n
int_of (error errno) = 2 ^ 32 - 1

unfoldable pub is_ok : Ret → Bool
is_ok (ret n) = true
is_ok (error errno) = false

-- The flags that are read, and what `fcntl` makes of those that are written. The first result is
-- not tested.
unfoldable pub set_no_blocking : Ret → (ℕ → Ret) → Bool
unfolding is_ok
set_no_blocking get set = is_ok (set (bit_or (int_of get) o_nonblock))

unfoldable pub set_exec_close : Ret → (ℕ → Ret) → Bool
unfolding is_ok
set_exec_close get set = is_ok (set (bit_or (int_of get) fd_cloexec))

pub bind : Ret → Bool
bind r = is_ok r

pub listen : Ret → Bool
listen r = is_ok r

unfoldable pub connect : Ret → Bool
connect (ret n) = true
connect (error errno) = errno == einprogress

pub set_tcp_nodelay : Ret → Bool
set_tcp_nodelay r = is_ok r

pub set_reuse_port : Ret → Bool
set_reuse_port r = is_ok r

-- AF_INET and AF_INET6.
abbrev pub af_inet : ℕ
af_inet = 2

abbrev pub af_inet6 : ℕ
af_inet6 = 10

-- The union is `sockaddr`, with its port in network order and the bytes of its address.
pub record SockAddr : Type 0 where
  pub sin_family : ℕ
  pub sin_port : ℕ
  pub sin_addr : List ℕ

pub record NetAddress : Type 0 where
  pub family : ℕ
  pub sockaddr : SockAddr
  pub ip : List ℕ
  pub port : ℕ

-- `htobe16` on a machine that keeps the low byte first.
unfoldable pub htobe16 : ℕ → ℕ
htobe16 x = (x % 256) * 256 + x / 256 % 256

unfoldable pub net_address : (ℕ → List ℕ → List ℕ) → ℕ → ℕ → List ℕ → NetAddress
unfolding htobe16
net_address inet_pton sa_family sa_port sa_ip = record {
  family = sa_family;
  sockaddr = record {
    sin_family = sa_family;
    sin_port = htobe16 (sa_port % 2 ^ 16);
    sin_addr = inet_pton sa_family sa_ip;
  };
  ip = sa_ip;
  port = sa_port;
}

pub get_ip : NetAddress → List ℕ
get_ip a = a.ip

unfoldable pub get_port : NetAddress → ℕ
get_port a = a.port

-- `sizeof` of the member that the family selects.
pub addr_len : NetAddress → ℕ
addr_len a = if a.family == af_inet then 16 else (if a.family == af_inet6 then 28 else 28)

-- The flags of `accept4`.
unfoldable pub accept_flags : Bool → ℕ
accept_flags noblockingexec = if noblockingexec then bit_or sock_nonblock sock_cloexec else 0

-- `Accept` with an address, into which the kernel writes that of the peer.
unfoldable pub accept : (ℕ → ℕ → Ret × SockAddr) → NetAddress → Bool → Ret × NetAddress
unfolding accept_flags addr_len
accept accept4 addr noblockingexec =
    let (r, peer) = accept4 (addr_len addr) (accept_flags noblockingexec) in
    (r, record addr { sockaddr = peer })

pub accept_only : (ℕ → Ret) → Bool → Ret
accept_only accept4 noblockingexec = accept4 (accept_flags noblockingexec)

-- A port that fits 16 bits is read back from the address as it was given.
pub htobe16-htobe16 : (port : ℕ) → port < 2 ^ 16 → htobe16 (htobe16 (port % 2 ^ 16)) ≡ port
unfolding htobe16
htobe16-htobe16 port fits = omega arith

-- `getPort` of an address after `Accept` is the port that the address was made with, whoever the
-- peer is.
pub get_port-accept :
    (accept4 : ℕ → ℕ → Ret × SockAddr) (addr : NetAddress) (noblockingexec : Bool)
    → get_port (accept accept4 addr noblockingexec).1 ≡ get_port addr
unfolding get_port accept
get_port-accept accept4 addr noblockingexec = refl
