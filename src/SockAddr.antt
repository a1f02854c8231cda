-- ===== src/SockAddr.antt =====
-- src/sockaddr.hh and src/sockaddr.cc: socket addresses. The bytes of a `sockaddr_storage` are read
-- by the family they are tagged with, so an address is one of four shapes. Ports and IPv4 addresses
-- are in host order; `htons`, `htonl` and their inverses turn a stored number back into itself.
pub mod Laws
use mathlib.Core.Option
use ip2unix.Base.{
  Bool, Option, [], false, if◌then◌else◌, leb, length, map, none, some, suc, zero, ℕ, ◌%◌, ◌&&◌,
  ◌*◌, ◌++◌, ◌+◌, ◌/◌, ◌==◌, ◌^◌, ◌∷◌,
}
use ip2unix.Base.Text.{Bytes, bytes_eq}
use ip2unix.Base.Decimal.{decimal}

pub data Family : Type 0 where
  af_inet af_inet6 af_unix : Family
  af_other : ℕ → Family

-- An IPv4 address is a 32 bit number, an IPv6 address its 16 bytes with `sin6_flowinfo` and
-- `sin6_scope_id` beside it, a path ends before its NUL.
pub data SockAddr : Type 0 where
  inet : (port addr : ℕ) → SockAddr
  inet6 : (port : ℕ) (addr : Bytes) (flowinfo scope_id : ℕ) → SockAddr
  unix : (path : Bytes) → SockAddr
  other : (family : ℕ) → SockAddr

-- libc's `inet_pton` and `inet_ntop`.
pub record Inet : Type 0 where
  pub pton4 : Bytes → Option ℕ
  pub pton6 : Bytes → Option Bytes
  pub ntop4 : ℕ → Option Bytes
  pub ntop6 : Bytes → Option Bytes

-- `ucred`, with each number cast to `uint32_t`.
pub record Cred : Type 0 where
  pub pid : ℕ
  pub uid : ℕ
  pub gid : ℕ

abbrev pub zero_bytes : ℕ → Bytes
zero_bytes zero = []
zero_bytes (suc n) = 0 ∷ zero_bytes n

-- `SockAddr sa; sa.ss_family = family`.
unfoldable pub of_family : Family → SockAddr
of_family af_inet = inet 0 0
of_family af_inet6 = inet6 0 (zero_bytes 16) 0 0
of_family af_unix = unix []
of_family (af_other n) = other n

unfoldable pub family : SockAddr → Family
family (inet port addr) = af_inet
family (inet6 port addr flow scope) = af_inet6
family (unix path) = af_unix
family (other n) = af_other n

-- `set_host(const std::string&)`; `none` is the result `false`.
unfoldable pub set_host_str : Inet → SockAddr → Bytes → Option SockAddr
set_host_str net (inet port addr) host = Option.map (inet port) (net.pton4 host)
set_host_str net (inet6 port addr flow scope) host =
    Option.map (λ addr'. inet6 port addr' flow scope) (net.pton6 host)
set_host_str net (unix path) host = none
set_host_str net (other n) host = none

-- `set_host(const SockAddr&)`.
unfoldable pub set_host_addr : SockAddr → SockAddr → Option SockAddr
set_host_addr (inet port addr) (inet port' addr') = some (inet port addr')
set_host_addr (inet6 port addr flow scope) (inet6 port' addr' flow' scope') =
    some (inet6 port addr' flow scope)
set_host_addr _ _ = none

-- A 32 bit number in network order.
abbrev pub bytes32 : ℕ → Bytes
bytes32 n = n / 2 ^ 24 % 256 ∷ n / 2 ^ 16 % 256 ∷ n / 2 ^ 8 % 256 ∷ n % 256 ∷ []

abbrev pub link_local : Bytes
link_local = 0xfe ∷ 0x80 ∷ 0 ∷ 0 ∷ []

-- `set_host(const ucred&)`.
unfoldable pub set_host_cred : SockAddr → Cred → Option SockAddr
set_host_cred (inet port addr) cred = some (inet port cred.pid)
set_host_cred (inet6 port addr flow scope) cred = some (
    inet6 port (link_local ++ (bytes32 cred.uid ++ (bytes32 cred.gid ++ bytes32 cred.pid))) flow
      scope)
set_host_cred (unix path) cred = none
set_host_cred (other n) cred = none

-- `set_random_host()`; the argument is what `RNG::get` returns for the family's range.
unfoldable pub set_random_host : SockAddr → ℕ → Option SockAddr
set_random_host (inet port addr) random = some (inet port random)
set_random_host (inet6 port addr flow scope) random =
    some (inet6 port (link_local ++ (zero_bytes 8 ++ bytes32 random)) flow scope)
set_random_host (unix path) random = none
set_random_host (other n) random = none

unfoldable pub get_host : Inet → SockAddr → Option Bytes
get_host net (inet port addr) = net.ntop4 addr
get_host net (inet6 port addr flow scope) = net.ntop6 addr
get_host net (unix path) = none
get_host net (other n) = none

unfoldable pub get_sockpath : SockAddr → Option Bytes
get_sockpath (unix path) = some path
get_sockpath _ = none

unfoldable pub get_port : SockAddr → Option ℕ
get_port (inet port addr) = some port
get_port (inet6 port addr flow scope) = some port
get_port (unix path) = none
get_port (other n) = none

unfoldable pub get_port_str : SockAddr → Option Bytes
unfolding get_port
get_port_str sa = Option.map decimal (get_port sa)

unfoldable pub set_port : SockAddr → ℕ → Option SockAddr
set_port (inet port addr) port' = some (inet port' addr)
set_port (inet6 port addr flow scope) port' = some (inet6 port' addr flow scope)
set_port (unix path) port' = none
set_port (other n) port' = none

-- `SockAddr::create`.
unfoldable pub create : Inet → Bytes → ℕ → Family → Option SockAddr
unfolding of_family set_host_str set_port
create net addr port af_unix = none
create net addr port (af_other n) = none
create net addr port fam = elim (set_host_str net (of_family fam) addr) [
  | none ↦ none
  | some sa ↦ set_port sa port
]

-- Up to the first NUL, as `strncpy` and the constructor from `char*` read.
unfoldable pub until_nul : Bytes → Bytes
until_nul [] = []
until_nul (c ∷ s) = if c == 0 then [] else c ∷ until_nul s

-- `SockAddr::unix`; `sun_path` holds 108 bytes.
unfoldable pub unix_addr : Bytes → Option SockAddr
unfolding until_nul
unix_addr path = if leb 108 (length path) then none else some (unix (until_nul path))

abbrev pub loopback6 : Bytes
loopback6 = zero_bytes 15 ++ 1 ∷ []

unfoldable pub is_loopback : SockAddr → Bool
unfolding bytes_eq
is_loopback (inet port addr) = addr / 2 ^ 24 % 256 == 127
is_loopback (inet6 port addr flow scope) = bytes_eq addr loopback6
is_loopback (unix path) = false
is_loopback (other n) = false

-- `size()`: the sizes of the four structures on Linux.
unfoldable pub size : SockAddr → ℕ
size (inet port addr) = 16
size (inet6 port addr flow scope) = 28
size (unix path) = 110
size (other n) = 128

-- The two pointers of a caller: which of them is no null pointer.
pub record Destination : Type 0 where
  pub has_addr : Bool
  pub has_addrlen : Bool

-- What is written through the pointers: the address, in as many bytes as the length says.
unfoldable pub apply_addr : SockAddr → Destination → Option (SockAddr × ℕ)
unfolding size
apply_addr sa to = if to.has_addr && to.has_addrlen then some (sa, size sa) else none

unfoldable pub equals : SockAddr → SockAddr → Bool
unfolding bytes_eq
equals (inet port addr) (inet port' addr') = port == port' && addr == addr'
equals (inet6 port addr flow scope) (inet6 port' addr' flow' scope') =
    bytes_eq addr addr' && port == port'
equals (unix path) (unix path') = bytes_eq path path'
equals _ _ = false

-- The numbers of the families on Linux, as `get_hash` prints them.
abbrev family_number : Family → ℕ
family_number af_inet = 2
family_number af_inet6 = 10
family_number af_unix = 1
family_number (af_other n) = n

-- A 16 bit number with its bytes swapped: `sin_port` in network order on a little-endian machine.
abbrev swap16 : ℕ → ℕ
swap16 n = n % 256 * 256 + n / 256

abbrev swap32 : ℕ → ℕ
swap32 n = n % 256 * 2 ^ 24 + n / 256 % 256 * 2 ^ 16 + n / 2 ^ 16 % 256 * 256 + n / 2 ^ 24

-- The text that `get_hash` hands to `std::hash`.
unfoldable pub hash_text : SockAddr → Bytes
unfolding decimal family
hash_text (inet port addr) =
    decimal (family_number af_inet)
    ++ (b'|' ∷ (decimal (swap16 port) ++ (b'|' ∷ decimal (swap32 addr))))
hash_text (inet6 port addr flow scope) =
    decimal (family_number af_inet6) ++ (b'|' ∷ (decimal (swap16 port) ++ (b'|' ∷ addr)))
hash_text (unix path) = decimal (family_number af_unix) ++ (b'|' ∷ path)
hash_text (other n) = decimal n
