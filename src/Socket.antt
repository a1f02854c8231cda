-- ===== src/Socket.antt =====
-- src/socket.hh: the sockets of the program and the tables they are kept in. The methods of
-- src/socket.cc are in the modules below.
pub mod Path
pub mod Options
pub mod Unix
pub mod Bind
pub mod Connect
pub mod Peers
pub mod Close
pub mod Registry
use ip2unix.Base.{
  Bool, List, Option, [], false, if◌then◌else◌, length, none, some, true, ℕ, ◌%◌, ◌++◌, ◌-◌, ◌==◌,
  ◌∷◌,
}
use ip2unix.Base.Text.{Bytes}
use ip2unix.Base.Integer.{int_eq, negsuc, pos, ℤ}
use ip2unix.Base.Dict.{put}
use ip2unix.Rules.{Rule, SocketType, invalid, tcp, udp}
use ip2unix.SockAddr.{Family, SockAddr, af_inet, af_inet6, af_other, af_unix}
use ip2unix.SockOpts.{SockOpts}
use ip2unix.DynPorts
use ip2unix.DynPorts.{DynPorts}
use ip2unix.Effect.{Effect, modify, pure, ◌>>=◌, ◌>>◌}
use ip2unix.Kernel.{Kernel, Process, draw}
use ip2unix.BlackHole.{BlackHole}

pub record Socket : Type 0 where
  pub type : SocketType
  pub rewrite_peer_address : Bool
  pub fd : ℤ
  pub domain : ℤ
  pub typearg : ℤ
  pub protocol : ℤ
  pub activated : Bool
  pub binding : Option SockAddr
  pub connection : Option SockAddr
  pub unlink_sockpath : Option Bytes
  pub sockopts : SockOpts
  pub ports : DynPorts
  pub peermap : List (SockAddr × Bytes)
  pub revpeermap : List (Bytes × SockAddr)
  pub is_unix : Bool
  pub is_blackhole : Bool
  pub reuse_addr : Bool
  pub blackhole_ref : Option BlackHole

-- `sockets` has every socket that was made, by its pointer; `none` stands for one that is destroyed.
-- `registry` and `sockpaths` are the static members, `g_rules` the rules once they are read.
pub record World (S : Type 0) : Type 0 where
  pub process : Process S
  pub sockets : List (Option Socket)
  pub registry : List (ℤ × ℕ)
  pub sockpaths : List Bytes
  pub g_rules : Option (List Rule)

-- The state of a method: `this`, and the socket it points to.
pub record State (S : Type 0) : Type 0 where
  pub this : ℕ
  pub self : Socket
  pub world : World S

module _ {S : Type 0} where
  abbrev pub in_world : {A : Type 0} → Effect (Process S) A → Effect (World S) A
  in_world m w = elim (m w.process) [
    | none ↦ none
    | some (a, p) ↦ some (a, record w { process = p })
  ]

  abbrev pub on_world : {A : Type 0} → Effect (World S) A → Effect (State S) A
  on_world m s = elim (m s.world) [ none ↦ none | some (a, w) ↦ some (a, record s { world = w }) ]

  -- What a method does with the process alone.
  abbrev pub on_process : {A : Type 0} → Effect (Process S) A → Effect (State S) A
  on_process m = on_world (in_world m)

  abbrev pub on_self : (Socket → Socket) → Effect (State S) (Unit {0})
  on_self f s = some (tt, record s { self = f s.self })

  abbrev pub get_self : Effect (State S) Socket
  get_self s = some (s.self, s)

-- `ss_family = domain`, an `unsigned short`.
abbrev family_of_number : ℕ → Family
family_of_number n =
    if n == 2 then af_inet else if n == 10 then af_inet6 else if n == 1 then af_unix else af_other n

unfoldable pub domain_family : ℤ → Family
domain_family (pos n) = family_of_number (n % 65536)
domain_family (negsuc n) = family_of_number (65535 - n % 65536)

-- `type & (SOCK_STREAM | SOCK_DGRAM)`: the two lowest bits of an `int`.
abbrev low_bits : ℤ → ℕ
low_bits (pos n) = n % 4
low_bits (negsuc n) = 3 - n % 4

unfoldable pub get_sotype : ℤ → SocketType
get_sotype type = if low_bits type == 1 then tcp else if low_bits type == 2 then udp else invalid

-- The constructor `Socket(sfd, sdomain, stype, sproto)`, with the ports that it draws.
unfoldable pub new_socket : ℤ → ℤ → ℤ → ℤ → DynPorts → Socket
unfolding get_sotype
new_socket sfd sdomain stype sproto ports = record {
  type = get_sotype stype;
  rewrite_peer_address = true;
  fd = sfd;
  domain = sdomain;
  typearg = stype;
  protocol = sproto;
  activated = false;
  binding = none;
  connection = none;
  unlink_sockpath = none;
  sockopts = [];
  ports = ports;
  peermap = [];
  revpeermap = [];
  is_unix = false;
  is_blackhole = false;
  reuse_addr = false;
  blackhole_ref = none;
}

module _ {S : Type 0} (kernel : Kernel S) where
  -- `DynPorts()`.
  unfoldable pub draw_ports : Effect (Process S) DynPorts
  draw_ports = do
    port ← draw kernel.random_port
    offset ← draw kernel.random_offset
    pure (DynPorts.create port offset)

  -- `registry[fd] = p`.
  abbrev pub register : ℤ → ℕ → Effect (World S) (Unit {0})
  register fd p = modify λ (w : World S). record w { registry = put int_eq w.registry fd p }

  -- The pointer to a new socket.
  abbrev pub allocate : Socket → Effect (World S) ℕ
  allocate sock w = some (length w.sockets, record w { sockets = w.sockets ++ some sock ∷ [] })

  -- `Socket::create`.
  unfoldable pub create : ℤ → ℤ → ℤ → ℤ → Effect (World S) ℕ
  unfolding draw_ports put
  create fd domain type protocol = do
    ports ← in_world draw_ports
    sock ← allocate (new_socket fd domain type protocol ports)
    register fd sock
    pure sock
