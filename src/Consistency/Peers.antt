-- ===== src/Consistency/Peers.antt =====
-- `accept` and `rewrite_src` keep sockets sound.
use ip2unix.Base.{Option, arith, none, refl, some, ℕ, ◌≡◌}
use ip2unix.Base.Text.{Bytes, bytes_eq}
use ip2unix.Base.Integer.{ℤ}
use ip2unix.Base.Dict.{find}
use ip2unix.Effect.{Ensures, elim_Ensures, pure, ◌>>=◌}
use ip2unix.Kernel.{Kernel, einval, fail_with, minus_one}
use ip2unix.SockAddr.{Destination, SockAddr, get_port, get_sockpath, of_family, set_port}
use ip2unix.DynPorts.{DynPorts}
use ip2unix.Socket.{Socket, State, domain_family, draw_ports, on_process}
use ip2unix.Socket.Unix.{acquire_port, reserve_in}
use ip2unix.Socket.Peers.{
  accept, accept_from, child_socket, enter_child, enter_peer, getpeername, getsockname, name_of,
  new_peer, peer_host, random_peer, register_child, rewrite_known, rewrite_src,
}
use ip2unix.Consistency.Alive.{append-IsPlaced}
use ip2unix.Consistency.{
  Holds, IsConverted, IsSound, Keeps, converted_Ensures, elim_Keeps, on_process-Keeps, then_Keeps,
}
use ip2unix.Consistency.Bind.{acquire_port-Keeps}

module _ {S : Type 0} (kernel : Kernel S) where
  name_of-Keeps : (o : Option SockAddr) (to : Destination) → Keeps IsSound (name_of kernel o to)
  unfolding name_of
  name_of-Keeps none to s i = i
  name_of-Keeps (some sa) to s i = i

  pub getpeername-Keeps : (to : Destination) → Keeps IsSound (getpeername kernel to)
  unfolding getpeername
  getpeername-Keeps to s = name_of-Keeps s.self.connection to s

  pub getsockname-Keeps : (to : Destination) → Keeps IsSound (getsockname kernel to)
  unfolding getsockname
  getsockname-Keeps to s = name_of-Keeps s.self.binding to s

  peer_host-Keeps :
      (local peer : SockAddr) (sockfd : ℤ) → Keeps IsConverted (peer_host kernel local peer sockfd)
  unfolding peer_host
  peer_host-Keeps local peer sockfd s (i, c) = ground arith

  enter_child-Keeps :
      (sockfd : ℤ) (local peer : SockAddr) (to : Destination) (ports : DynPorts)
      → Keeps IsConverted (enter_child kernel sockfd local peer to ports)
  unfolding enter_child child_socket
  enter_child-Keeps sockfd local peer to ports s (i, c) = (
    i,
    append-IsPlaced s.world.sockets s.world.registry
        (child_socket kernel s.self sockfd ports local peer) sockfd s.this (λ n. ground arith) c,
  )

  register_child-Keeps :
      (sockfd : ℤ) (local : SockAddr) (local_port : ℕ) (peer : SockAddr) (to : Destination)
      → Keeps IsConverted (register_child kernel sockfd local local_port peer to)
  unfolding register_child
  register_child-Keeps sockfd local local_port peer to =
      let entered = enter_child kernel sockfd local peer to in
      then_Keeps IsConverted (on_process (draw_ports kernel))
        (λ drawn. on_process (reserve_in kernel drawn local_port) >>= entered)
        (on_process-Keeps IsConverted (draw_ports kernel))
        λ drawn.
          then_Keeps IsConverted (on_process (reserve_in kernel drawn local_port)) entered
            (on_process-Keeps IsConverted (reserve_in kernel drawn local_port))
            (enter_child-Keeps sockfd local peer to)

  accept_from-Keeps :
      (sockfd : ℤ) (local : SockAddr) (local_port : ℕ) (to : Destination)
      → Keeps IsConverted (accept_from kernel sockfd local local_port to)
  unfolding accept_from
  accept_from-Keeps sockfd local local_port to s =
      then_Keeps IsConverted
        (peer_host kernel local (of_family (domain_family s.self.domain)) sockfd) _
        (peer_host-Keeps local (of_family (domain_family s.self.domain)) sockfd)
        (λ host.
          elim_Keeps IsConverted host (pure (minus_one, none)) _ (λ t i. i)
            λ peer.
              then_Keeps IsConverted (acquire_port kernel) _ (acquire_port-Keeps kernel)
                λ peer_port.
                  elim_Keeps IsConverted (set_port peer peer_port)
                    (on_process (fail_with einval (minus_one, none))) _ (λ t j. j)
                    λ peer'. register_child-Keeps sockfd local local_port peer' to)
        s

  bound_IsConverted :
      (sock : Socket) (local : SockAddr)
      → IsSound sock
      → sock.binding ≡ some local
      → IsConverted sock
  bound_IsConverted sock local i e = ground arith

  pub accept-Keeps : (sockfd : ℤ) (to : Destination) → Keeps IsSound (accept kernel sockfd to)
  unfolding accept
  accept-Keeps sockfd to s i =
      elim_Ensures (λ _ t. Holds IsSound t) s s.self.binding _ _ (λ _. i)
        λ local e.
          elim_Ensures (λ _ t. Holds IsSound t) s (get_port local) _ _ (λ _. i)
            λ local_port _. converted_Ensures (accept_from kernel sockfd local local_port to s) (
              accept_from-Keeps sockfd local local_port to s
                (bound_IsConverted s.self local i.0 e, i.1))

  new_peer-Keeps :
      (local : SockAddr) (path : Bytes) (to : Destination)
      → Keeps IsConverted (new_peer kernel local path to)
  unfolding new_peer acquire_port random_peer enter_peer
  new_peer-Keeps local path to s (i, c) = ground arith

  rewrite_known-Keeps :
      (s : State S) (binding : Option SockAddr) (path : Option Bytes) (to : Destination)
      → Holds IsSound s
      → s.self.binding ≡ binding
      → Ensures (λ _ t. Holds IsSound t) (rewrite_known kernel binding path to s)
  unfolding rewrite_known
  rewrite_known-Keeps s none path to i e = i
  rewrite_known-Keeps s (some local) none to i e = i
  rewrite_known-Keeps s (some local) (some path) to i e =
      elim_Ensures (λ _ t. Holds IsSound t) s (find bytes_eq s.self.revpeermap path)
        (new_peer kernel local path to) _
        (λ _.
          converted_Ensures (new_peer kernel local path to s)
            (new_peer-Keeps local path to s (bound_IsConverted s.self local i.0 e, i.1)))
        λ peer _. i

  pub rewrite_src-Keeps :
      (real_addr : SockAddr) (to : Destination) → Keeps IsSound (rewrite_src kernel real_addr to)
  unfolding rewrite_src
  rewrite_src-Keeps real_addr to s i =
      rewrite_known-Keeps s s.self.binding (get_sockpath real_addr) to i refl
