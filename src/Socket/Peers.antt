-- ===== src/Socket/Peers.antt =====
-- `Socket::accept`, `getsockname`, `getpeername`, `rewrite_src` and `rewrite_dest_peermap`: the
-- addresses that the program sees.
pub mod RoundTrip
pub mod Names
use ip2unix.Base.{Bool, Option, false, if◌then◌else◌, none, some, true, ℕ}
use ip2unix.Base.Text.{Bytes, bytes_eq}
use ip2unix.Base.Integer.{int_eq, pos, ℤ}
use ip2unix.Base.Dict.{find, put}
use ip2unix.Effect.{Effect, pure, ◌>>=◌, ◌>>◌}
use ip2unix.Kernel.{
  Applied, Kernel, call, draw, eaddrnotavail, efault, einval, fail_with, minus_one,
}
use ip2unix.SockAddr.{
  Destination, SockAddr, apply_addr, equals, family, get_port, get_sockpath, is_loopback, of_family,
  set_host_addr, set_host_cred, set_port, set_random_host, unix_addr,
}
use ip2unix.DynPorts.{DynPorts}
use ip2unix.Socket.{
  Socket, State, allocate, domain_family, draw_ports, get_self, new_socket, on_process, on_self,
  on_world, register,
}
use ip2unix.Socket.Unix.{acquire_port, reserve_in}

module _ {S : Type 0} (kernel : Kernel S) where
  -- `addr.apply_addr(…); return 0;`, or `errno = EFAULT; return -1;`.
  unfoldable pub name_of : Option SockAddr → Destination → Effect (State S) (ℤ × Applied)
  unfolding apply_addr
  name_of none to = on_process (fail_with efault (minus_one, none))
  name_of (some sa) to = pure (pos 0, apply_addr sa to)

  unfoldable pub getpeername : Destination → Effect (State S) (ℤ × Applied)
  unfolding name_of
  getpeername to = do sock ← get_self; name_of sock.connection to

  unfoldable pub getsockname : Destination → Effect (State S) (ℤ × Applied)
  unfolding name_of
  getsockname to = do sock ← get_self; name_of sock.binding to

  -- The host of the peer: that of a loopback binding, or one made of the peer's credentials.
  unfoldable pub peer_host : SockAddr → SockAddr → ℤ → Effect (State S) (Option SockAddr)
  unfolding is_loopback set_host_addr set_host_cred
  peer_host local peer sockfd =
      if is_loopback local
      then (elim (set_host_addr peer local) [
        | none ↦ on_process (fail_with eaddrnotavail none)
        | some peer' ↦ pure (some peer')
      ])
      else do
        peercred ← on_process (call (kernel.peer_credentials sockfd))
        elim peercred [
          | none ↦ pure none
          | some cred ↦ elim (set_host_cred peer cred) [
            | none ↦ on_process (fail_with einval none)
            | some peer' ↦ pure (some peer')
          ]
        ]

  -- The socket of the connection.
  unfoldable pub child_socket : Socket → ℤ → DynPorts → SockAddr → SockAddr → Socket
  unfolding new_socket
  child_socket sock sockfd ports local peer =
      record (new_socket sockfd sock.domain sock.typearg sock.protocol ports) {
        binding = some local;
        connection = some peer;
        is_unix = true;
      }

  -- From the new socket on.
  unfoldable pub enter_child :
      ℤ → SockAddr → SockAddr → Destination → DynPorts → Effect (State S) (ℤ × Applied)
  unfolding child_socket apply_addr put int_eq
  enter_child sockfd local peer to ports = do
    sock ← get_self
    child ← on_world (allocate kernel (child_socket sock sockfd ports local peer))
    on_world (register kernel sockfd child)
    pure (sockfd, apply_addr peer to)

  unfoldable pub register_child :
      ℤ → SockAddr → ℕ → SockAddr → Destination → Effect (State S) (ℤ × Applied)
  unfolding draw_ports reserve_in enter_child
  register_child sockfd local local_port peer to = do
    drawn ← on_process (draw_ports kernel)
    ports ← on_process (reserve_in kernel drawn local_port)
    enter_child sockfd local peer to ports

  unfoldable pub accept_from : ℤ → SockAddr → ℕ → Destination → Effect (State S) (ℤ × Applied)
  unfolding peer_host register_child acquire_port set_port of_family domain_family
  accept_from sockfd local local_port to = do
    sock ← get_self
    host ← peer_host local (of_family (domain_family sock.domain)) sockfd
    elim host [
      | none ↦ pure (minus_one, none)
      | some peer ↦ do
        peer_port ← acquire_port kernel
        elim (set_port peer peer_port) [
          | none ↦ on_process (fail_with einval (minus_one, none))
          | some peer' ↦ register_child sockfd local local_port peer' to
        ]
    ]

  unfoldable pub accept : ℤ → Destination → Effect (State S) (ℤ × Applied)
  unfolding accept_from get_port
  accept sockfd to = do
    sock ← get_self
    elim sock.binding [
      | none ↦ on_process (fail_with einval (minus_one, none))
      | some local ↦ elim (get_port local) [
        | none ↦ on_process (fail_with einval (minus_one, none))
        | some local_port ↦ accept_from sockfd local local_port to
      ]
    ]

  -- The host of a new peer: that of a loopback binding, or a random one.
  unfoldable pub random_peer : SockAddr → SockAddr → Effect (State S) (Option SockAddr)
  unfolding is_loopback set_host_addr set_random_host family
  random_peer local peer = if is_loopback local then pure (set_host_addr peer local) else do
    random ← on_process (draw (kernel.random_host (family peer)))
    pure (set_random_host peer random)

  abbrev pub without_port : SockAddr → Option SockAddr → SockAddr
  without_port peer none = peer
  without_port peer (some peer') = peer'

  -- The address is entered in both tables.
  unfoldable pub enter_peer :
      Bytes → Destination → Option SockAddr → Effect (State S) (Bool × Applied)
  unfolding apply_addr put equals bytes_eq
  enter_peer path to none = pure (false, none)
  enter_peer path to (some peer) = do
    on_self λ (self : Socket). record self {
      peermap = put equals self.peermap peer path;
      revpeermap = put bytes_eq self.revpeermap path peer;
    }
    pure (true, apply_addr peer to)

  -- A peer that was not seen before gets an address.
  unfoldable pub new_peer : SockAddr → Bytes → Destination → Effect (State S) (Bool × Applied)
  unfolding acquire_port set_port random_peer enter_peer of_family domain_family
  new_peer local path to = do
    sock ← get_self
    port ← acquire_port kernel
    let peer = of_family (domain_family sock.domain)
    host ← random_peer local (without_port peer (set_port peer port))
    enter_peer path to host

  unfoldable pub rewrite_known :
      Option SockAddr → Option Bytes → Destination → Effect (State S) (Bool × Applied)
  unfolding find bytes_eq apply_addr new_peer
  rewrite_known none path to = pure (true, none)
  rewrite_known (some local) none to = pure (true, none)
  rewrite_known (some local) (some path) to = do
    sock ← get_self
    elim (find bytes_eq sock.revpeermap path) [
      | some peer ↦ pure (true, apply_addr peer to)
      | none ↦ new_peer local path to
    ]

  unfoldable pub rewrite_src : SockAddr → Destination → Effect (State S) (Bool × Applied)
  unfolding rewrite_known get_sockpath
  rewrite_src real_addr to = do
    sock ← get_self
    rewrite_known sock.binding (get_sockpath real_addr) to

  unfoldable pub rewrite_dest_peermap : SockAddr → Effect (State S) (Option SockAddr)
  unfolding find equals unix_addr
  rewrite_dest_peermap addr = do
    sock ← get_self
    pure (elim (find equals sock.peermap addr) [ none ↦ none | some path ↦ unix_addr path ])
