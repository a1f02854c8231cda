-- ===== src/Consistency/Calls.antt =====
-- The entry points keep the sockets of the store sound.
use ip2unix.Base.{Option, if◌then◌else◌, none, not, refl, ℕ, ◌&&◌, ◌||◌}
use ip2unix.Base.Text.{Bytes}
use ip2unix.Base.Integer.{int_eq, pos, ℤ}
use ip2unix.Effect.{Effect, pure, ◌>>=◌, ◌>>◌}
use ip2unix.Kernel.{Applied, Kernel, call, minus_one}
use ip2unix.SockAddr.{Destination, SockAddr}
use ip2unix.SockOpts.{EpollEvent}
use ip2unix.Systemd.{has_fd}
use ip2unix.Socket
use ip2unix.Socket.{Socket, World, in_world, new_socket, on_process}
use ip2unix.Socket.Peers
use ip2unix.Socket.Peers.{accept, getpeername, getsockname}
use ip2unix.Socket.Close
use ip2unix.Socket.Registry.{release}
use ip2unix.Preload.{
  Loader, Request, bind_connect, binds, connects, decide, init_rules, is_inet, known_peer, realfun,
}
use ip2unix.Preload.Calls
use ip2unix.Preload.Calls.{
  accept4, bind, close, connect, dup, dup3, epoll_ctl, ioctl, is_positive, listen, no_pointers,
  setsockopt, socket,
}
use ip2unix.Consistency.{IsSound, Keeps, elim_Keeps, if_Keeps, on_process-Keeps, then_Keeps}
use ip2unix.Consistency.Connect.{connect_peermap-Keeps}
use ip2unix.Consistency.Peers.{accept-Keeps, getpeername-Keeps, getsockname-Keeps}
use ip2unix.Consistency.Alive.{append-IsSoundStore}
use ip2unix.Consistency.Close.{close-Keeps, dup-Keeps, dup_onto-Keeps}
use ip2unix.Consistency.Store.{
  Stays, if_Stays, in_world-Stays, release-Stays, then_Stays, when-Stays,
}
use ip2unix.Consistency.Packets.{when_rewriting-Stays}
use ip2unix.Consistency.Options.{epoll_ctl-Keeps, ioctl-Keeps, listen-Keeps, setsockopt-Keeps}
use ip2unix.Consistency.Rules.{decide-Keeps, init_rules-Stays}

module _ {S : Type 0} (kernel : Kernel S) (loader : Loader S) where
  create-Stays :
      (fd domain type protocol : ℤ) → Stays kernel (Socket.create kernel fd domain type protocol)
  unfolding Socket.create new_socket
  create-Stays fd domain type protocol w c =
      append-IsSoundStore w.sockets w.registry _ fd (λ n. (refl, refl, refl, refl)) c

  pub socket-Stays :
      (domain type protocol : ℤ) → Stays kernel (Calls.socket kernel loader domain type protocol)
  unfolding Calls.socket
  socket-Stays domain type protocol w c =
      let fd = (kernel.socket domain type protocol w.process.os).0 in
      if_Stays kernel
        (not (int_eq fd minus_one) && (int_eq domain (pos 2) || int_eq domain (pos 10)))
        (Socket.create kernel fd domain type protocol >>= λ sock. release kernel >> pure fd)
        (pure fd)
        (then_Stays kernel (Socket.create kernel fd domain type protocol) _
          (create-Stays fd domain type protocol)
          λ sock.
            then_Stays kernel (release kernel) (λ _. pure fd) (release-Stays kernel) λ _ v d. d)
        (λ v d. d) _ c

  known_peer-Keeps :
      (request : Request) (addr : SockAddr) → Keeps IsSound (known_peer kernel loader request addr)
  unfolding known_peer
  known_peer-Keeps binds addr = λ s i. i
  known_peer-Keeps connects addr = connect_peermap-Keeps kernel addr

  pub bind_connect-Stays :
      (request : Request) (fd : ℤ) (addr : SockAddr) (addrlen : ℕ)
      → Stays kernel (bind_connect kernel loader request fd addr addrlen)
  unfolding bind_connect
  bind_connect-Stays request fd addr addrlen =
      let real : Effect (World S) ℤ =
        in_world (call (realfun kernel loader request fd addr addrlen)) in
      if_Stays kernel (is_inet addr) _ real
        (when-Stays kernel fd _ real
          (then_Keeps IsSound (known_peer kernel loader request addr) _
            (known_peer-Keeps request addr)
            λ pmap_ret.
              elim_Keeps IsSound pmap_ret (decide kernel loader request fd addr addrlen) _
                (decide-Keeps kernel loader request fd addr addrlen) λ ret s i. i)
          (λ w c. c))
        (λ w c. c)

  accept_body-Keeps :
      (to : Destination) (accepted : ℤ × Applied)
      → Keeps IsSound (
          if is_positive kernel loader accepted.0
          then Peers.accept kernel accepted.0 to
          else pure (accepted.0, none))
  accept_body-Keeps to accepted =
      if_Keeps IsSound (is_positive kernel loader accepted.0) (Peers.accept kernel accepted.0 to)
        (pure (accepted.0, none)) (accept-Keeps kernel accepted.0 to) (λ s i. i)

  pub accept4-Stays :
      (fd : ℤ) (to : Destination) (flags : ℤ)
      → Stays kernel (Calls.accept4 kernel loader fd to flags)
  unfolding Calls.accept4
  accept4-Stays fd to flags = when_rewriting-Stays kernel loader fd _ (kernel.accept4 fd to flags) (
      then_Keeps IsSound (on_process (call (kernel.accept4 fd (no_pointers kernel loader) flags))) _
        (on_process-Keeps IsSound (call (kernel.accept4 fd (no_pointers kernel loader) flags)))
        (accept_body-Keeps to))

  pub setsockopt-Stays :
      (fd level optname : ℤ) (optval : Bytes) (optlen : ℕ)
      → Stays kernel (Calls.setsockopt kernel loader fd level optname optval optlen)
  unfolding Calls.setsockopt
  setsockopt-Stays fd level optname optval optlen =
      when_rewriting-Stays kernel loader fd _ (kernel.setsockopt fd level optname optval optlen)
        (setsockopt-Keeps kernel level optname optval optlen)

  pub ioctl-Stays :
      (fd : ℤ) (request : ℕ) (arg : Bytes) → Stays kernel (Calls.ioctl kernel loader fd request arg)
  unfolding Calls.ioctl
  ioctl-Stays fd request arg =
      when_rewriting-Stays kernel loader fd _ (kernel.ioctl fd request arg)
        (ioctl-Keeps kernel request arg)

  pub epoll_ctl-Stays :
      (epfd op fd : ℤ) (event : Option EpollEvent)
      → Stays kernel (Calls.epoll_ctl kernel loader epfd op fd event)
  unfolding Calls.epoll_ctl
  epoll_ctl-Stays epfd op fd event =
      when_rewriting-Stays kernel loader fd _ (kernel.epoll_ctl epfd op fd event)
        (epoll_ctl-Keeps kernel epfd op event)

  pub listen-Stays : (fd backlog : ℤ) → Stays kernel (Calls.listen kernel loader fd backlog)
  unfolding Calls.listen
  listen-Stays fd backlog =
      when-Stays kernel fd _ _ (listen-Keeps kernel backlog)
        (in_world-Stays kernel (call (kernel.listen fd backlog)))

  pub getpeername-Stays :
      (fd : ℤ) (to : Destination) → Stays kernel (Calls.getpeername kernel loader fd to)
  unfolding Calls.getpeername
  getpeername-Stays fd to =
      when_rewriting-Stays kernel loader fd _ (kernel.getpeername fd to)
        (getpeername-Keeps kernel to)

  pub getsockname-Stays :
      (fd : ℤ) (to : Destination) → Stays kernel (Calls.getsockname kernel loader fd to)
  unfolding Calls.getsockname
  getsockname-Stays fd to =
      when_rewriting-Stays kernel loader fd _ (kernel.getsockname fd to)
        (getsockname-Keeps kernel to)

  pub dup-Stays : (fd : ℤ) → Stays kernel (Calls.dup kernel loader fd)
  unfolding Calls.dup
  dup-Stays fd =
      when-Stays kernel fd (Close.dup kernel) _ (dup-Keeps kernel)
        (in_world-Stays kernel (call (kernel.dup fd)))

  pub dup3-Stays :
      (oldfd newfd flags : ℤ) → Stays kernel (Calls.dup3 kernel loader oldfd newfd flags)
  unfolding Calls.dup3
  dup3-Stays oldfd newfd flags =
      let real = in_world-Stays kernel (call (kernel.dup3 oldfd newfd flags)) in
      if_Stays kernel (int_eq oldfd newfd) _ _ real (
        when-Stays kernel oldfd (Close.dup_onto kernel newfd flags) _
          (dup_onto-Keeps kernel newfd flags) real)

  pub close-Stays : (fd : ℤ) → Stays kernel (Calls.close kernel loader fd)
  unfolding Calls.close
  close-Stays fd =
      then_Stays kernel (init_rules kernel loader) _ (init_rules-Stays kernel loader) λ rules.
        then_Stays kernel (in_world (has_fd kernel fd)) _ (in_world-Stays kernel (has_fd kernel fd))
          λ passed.
            if_Stays kernel passed (pure (pos 0)) _ (λ w c. c)
              (when-Stays kernel fd (Close.close kernel) (in_world (call (kernel.close fd)))
                (close-Keeps kernel) (in_world-Stays kernel (call (kernel.close fd))))

  pub bind-Stays :
      (fd : ℤ) (addr : SockAddr) (addrlen : ℕ)
      → Stays kernel (Calls.bind kernel loader fd addr addrlen)
  unfolding Calls.bind
  bind-Stays = bind_connect-Stays binds

  pub connect-Stays :
      (fd : ℤ) (addr : SockAddr) (addrlen : ℕ)
      → Stays kernel (Calls.connect kernel loader fd addr addrlen)
  unfolding Calls.connect
  connect-Stays = bind_connect-Stays connects
