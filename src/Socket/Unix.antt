-- ===== src/Socket/Unix.antt =====
-- `Socket::make_unix`, `create_binding` and `activate`: a socket becomes a Unix socket.
pub mod Convert
use ip2unix.Base.{Bool, Option, false, if◌then◌else◌, length, none, not, some, true, ℕ, ◌==◌}
use ip2unix.Base.Integer.{int_eq, pos, ℤ}
use ip2unix.Effect.{Effect, gets, pure, value_of, ◌>>=◌, ◌>>◌}
use ip2unix.Kernel.{Kernel, Process, call, draw, fail_with, get_errno, minus_one, set_errno}
use ip2unix.SockAddr.{
  Cred, SockAddr, is_loopback, of_family, set_host_addr, set_host_cred, set_port,
}
use ip2unix.SockOpts.{System, replay}
use ip2unix.DynPorts
use ip2unix.DynPorts.{DynPorts, acquire, reserve}
use ip2unix.Socket.{Socket, State, domain_family, get_self, on_process, on_self}

abbrev pub af_unix_number : ℤ
af_unix_number = pos 1

module _ {S : Type 0} (kernel : Kernel S) where
  -- What `SockOpts::replay` takes for failed is -1.
  abbrev succeeded : ℤ × Option ℤ × S → Bool × S
  succeeded (ret, e, os) = (not (int_eq ret minus_one), os)

  unfoldable pub system : System S
  system = record {
    get_setting = kernel.get_setting;
    set_setting = kernel.set_setting;
    get_owner = kernel.get_owner;
    set_owner = kernel.set_owner;
    setsockopt = λ fd level optname optval os.
        succeeded (kernel.setsockopt fd level optname optval (length optval) os);
    ioctl = λ fd request arg os. succeeded (kernel.ioctl fd request arg os);
    epoll_ctl = λ epfd op fd event os. succeeded (kernel.epoll_ctl epfd op fd event os);
  }

  -- `this->sockopts.replay(this->fd, newfd)`.
  unfoldable pub replay_sockopts : ℤ → Effect (State S) Bool
  unfolding replay system
  replay_sockopts newfd s =
      let (ok, queue, os') = replay system s.self.sockopts s.self.fd newfd s.world.process.os in
      let process = record s.world.process { os = os' } in
      some (
        ok,
        record s {
          self = record s.self { sockopts = queue };
          world = record s.world { process = process };
        },
      )

  -- `real::close(newfd); errno = old_errno; return false;`
  unfoldable pub give_up : ℤ → ℤ → Effect (State S) Bool
  give_up newfd old_errno = do
    closed ← on_process (call (kernel.close newfd))
    on_process (fail_with old_errno false)

  -- From the replay on.
  unfoldable pub replace_socket : ℤ → ℤ → Effect (State S) Bool
  unfolding replay_sockopts give_up
  replace_socket old_errno newfd = do
    replayed ← replay_sockopts newfd
    if not replayed then give_up newfd old_errno else do
      sock ← get_self
      ret ← on_process (call (kernel.dup2 newfd sock.fd))
      if int_eq ret minus_one then give_up newfd old_errno else do
        closed ← on_process (call (kernel.close newfd))
        on_process (set_errno old_errno)
        on_self λ (self : Socket). record self { is_unix = true }
        pure true

  -- The argument is `oldfd`; `none` is its default, -1.
  unfoldable pub make_unix : Option ℤ → Effect (State S) Bool
  unfolding replace_socket
  make_unix oldfd = do
    old_errno ← on_process get_errno
    sock ← get_self
    if sock.is_unix then pure true else elim oldfd [
      | some fd ↦ replace_socket old_errno fd
      | none ↦ do
        newfd ← on_process (call (kernel.socket af_unix_number sock.typearg (pos 0)))
        if int_eq newfd minus_one
            then on_process (fail_with old_errno false)
            else replace_socket old_errno newfd
    ]

  -- `this->ports.acquire()`.
  unfoldable pub acquire_port : Effect (State S) ℕ
  unfolding DynPorts.acquire
  acquire_port s = elim (DynPorts.acquire s.self.ports) [
    | none ↦ none
    | some (port, ports') ↦ some (port, record s { self = record s.self { ports = ports' } })
  ]

  -- `reserve(port)`: a random port is drawn for the port 0.
  unfoldable pub reserve_in : DynPorts → ℕ → Effect (Process S) DynPorts
  unfolding DynPorts.reserve
  reserve_in ports port = do
    random ← if port == 0 then draw kernel.random_port else pure 0
    reserved ← value_of (DynPorts.reserve ports port random)
    pure reserved.1

  -- `this->ports.reserve(port)`.
  unfoldable pub reserve_port : ℕ → Effect (State S) (Unit {0})
  unfolding reserve_in
  reserve_port port = do
    sock ← get_self
    ports' ← on_process (reserve_in sock.ports port)
    on_self λ (self : Socket). record self { ports = ports' }

  -- The host of the implicit binding: that of a loopback address, or one made of our credentials.
  unfoldable pub local_host : SockAddr → SockAddr → Cred → Option SockAddr
  unfolding set_host_addr set_host_cred is_loopback
  local_host addr local local_cred =
      if is_loopback addr then set_host_addr local addr else set_host_cred local local_cred

  unfoldable pub create_binding : SockAddr → Effect (State S) Bool
  unfolding local_host acquire_port set_port of_family domain_family
  create_binding addr = do
    sock ← get_self
    os ← gets λ s. s.world.process.os
    elim (local_host addr (of_family (domain_family sock.domain)) (kernel.own_credentials os)) [
      | none ↦ pure false
      | some local ↦ do
        port ← acquire_port
        elim (set_port local port) [
          | none ↦ pure false
          | some local' ↦ do
            on_self λ (self : Socket). record self { binding = some local' }
            pure true
        ]
    ]

  unfoldable pub activate : SockAddr → ℤ → Bool → Effect (State S) ℤ
  unfolding make_unix
  activate addr filedes is_inet = do
    on_self λ (self : Socket). record self {
      rewrite_peer_address = if is_inet then false else self.rewrite_peer_address;
    }
    converted ← make_unix (if int_eq filedes minus_one then none else some filedes)
    if not converted then pure minus_one else do
      on_self λ (self : Socket). record self { binding = some addr; activated = true }
      pure (pos 0)
