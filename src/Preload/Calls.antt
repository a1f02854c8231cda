-- ===== src/Preload/Calls.antt =====
-- The entry points of src/preload.cc. What is sent or received is passed on as it is, and so is not
-- in the model; a null pointer to an address is a `Destination` without it.
use ip2unix.Base.{Bool, Option, [], false, if◌then◌else◌, ltb, none, not, some, true, ℕ, ◌&&◌, ◌||◌}
use ip2unix.Base.Text.{Bytes}
use ip2unix.Base.Integer.{int_eq, negsuc, pos, ℤ}
use ip2unix.Effect.{Effect, pure, ◌>>=◌, ◌>>◌}
use ip2unix.Rules.{Rule, outgoing}
use ip2unix.Kernel.{Applied, Call, Kernel, call, eacces, einval, fail_with, minus_one}
use ip2unix.SockAddr.{Destination, SockAddr, size, unix}
use ip2unix.SockOpts.{EpollEvent}
use ip2unix.Matching.{match_rule}
use ip2unix.Systemd.{has_fd}
use ip2unix.Socket
use ip2unix.Socket.{Socket, State, World, get_self, in_world, on_process, on_world}
use ip2unix.Socket.Options
use ip2unix.Socket.Connect.{rewrite_dest}
use ip2unix.Socket.Peers
use ip2unix.Socket.Peers.{rewrite_dest_peermap, rewrite_src}
use ip2unix.Socket.Close
use ip2unix.Socket.Registry.{release, when}
use ip2unix.Preload.{Loader, bind_connect, binds, connects, init_rules}

module _ {S : Type 0} (kernel : Kernel S) (loader : Loader S) where
  unfoldable pub socket : ℤ → ℤ → ℤ → Effect (World S) ℤ
  unfolding Socket.create release int_eq
  socket domain type protocol = do
    fd ← in_world (call (kernel.socket domain type protocol))
    if not (int_eq fd minus_one) && (int_eq domain (pos 2) || int_eq domain (pos 10))
        then (do sock ← Socket.create kernel fd domain type protocol; release kernel; pure fd)
        else pure fd

  -- The method if the peers' addresses are rewritten, and else the real call.
  abbrev pub rewriting : {A : Type 0} → Effect (State S) A → Call S A → Effect (State S) A
  rewriting method real = do
    sock ← get_self
    if sock.rewrite_peer_address then method else on_process (call real)

  -- `Socket::when` with that choice, and the real call for other descriptors.
  abbrev pub when_rewriting : {A : Type 0} → ℤ → Effect (State S) A → Call S A → Effect (World S) A
  when_rewriting fd method real = when kernel fd (rewriting method real) (in_world (call real))

  unfoldable pub setsockopt : ℤ → ℤ → ℤ → Bytes → ℕ → Effect (World S) ℤ
  unfolding when Options.setsockopt
  setsockopt sockfd level optname optval optlen =
      when_rewriting sockfd (Options.setsockopt kernel level optname optval optlen)
        (kernel.setsockopt sockfd level optname optval optlen)

  unfoldable pub ioctl : ℤ → ℕ → Bytes → Effect (World S) ℤ
  unfolding when Options.ioctl
  ioctl fd request arg =
      when_rewriting fd (Options.ioctl kernel request arg) (kernel.ioctl fd request arg)

  unfoldable pub epoll_ctl : ℤ → ℤ → ℤ → Option EpollEvent → Effect (World S) ℤ
  unfolding when Options.epoll_ctl
  epoll_ctl epfd op fd event =
      when_rewriting fd (Options.epoll_ctl kernel epfd op event) (kernel.epoll_ctl epfd op fd event)

  unfoldable pub listen : ℤ → ℤ → Effect (World S) ℤ
  unfolding when Options.listen
  listen sockfd backlog =
      when kernel sockfd (Options.listen kernel backlog)
        (in_world (call (kernel.listen sockfd backlog)))

  unfoldable pub bind : ℤ → SockAddr → ℕ → Effect (World S) ℤ
  unfolding bind_connect
  bind = bind_connect kernel loader binds

  unfoldable pub connect : ℤ → SockAddr → ℕ → Effect (World S) ℤ
  unfolding bind_connect
  connect = bind_connect kernel loader connects

  abbrev pub is_positive : ℤ → Bool
  is_positive (pos n) = ltb 0 n
  is_positive (negsuc n) = false

  abbrev pub no_pointers : Destination
  no_pointers = record { has_addr = false; has_addrlen = false }

  unfoldable pub accept4 : ℤ → Destination → ℤ → Effect (World S) (ℤ × Applied)
  unfolding when Peers.accept
  accept4 fd to flags =
      when_rewriting fd
        (do
          accepted ← on_process (call (kernel.accept4 fd no_pointers flags))
          if is_positive accepted.0
              then Peers.accept kernel accepted.0 to
              else pure (accepted.0, none))
        (kernel.accept4 fd to flags)

  unfoldable pub accept : ℤ → Destination → Effect (World S) (ℤ × Applied)
  unfolding accept4
  accept fd to = accept4 fd to (pos 0)

  unfoldable pub getpeername : ℤ → Destination → Effect (World S) (ℤ × Applied)
  unfolding when Peers.getpeername
  getpeername fd to = when_rewriting fd (Peers.getpeername kernel to) (kernel.getpeername fd to)

  unfoldable pub getsockname : ℤ → Destination → Effect (World S) (ℤ × Applied)
  unfolding when Peers.getsockname
  getsockname fd to = when_rewriting fd (Peers.getsockname kernel to) (kernel.getsockname fd to)

  -- The address that a call wrote over one of the family AF_UNIX.
  abbrev pub received_address : Applied → SockAddr
  received_address none = unix []
  received_address (some (addr, len)) = addr

  unfoldable pub receive : Destination → Call S (ℤ × Applied) → Effect (State S) (ℤ × Applied)
  unfolding rewrite_src
  receive to real = do
    received ← on_process (call real)
    rewritten ← rewrite_src kernel (received_address received.1) to
    if rewritten.0
        then pure (received.0, rewritten.1)
        else on_process (fail_with einval (minus_one, rewritten.1))

  abbrev pub both_pointers : Destination
  both_pointers = record { has_addr = true; has_addrlen = true }

  unfoldable pub recvfrom : ℤ → Destination → Effect (World S) (ℤ × Applied)
  unfolding when receive
  recvfrom fd to =
      if not to.has_addr
      then in_world (call (kernel.recvfrom fd to))
      else when_rewriting fd (receive to (kernel.recvfrom fd both_pointers)) (kernel.recvfrom fd to)

  -- `named` is whether `msg_name` is no null pointer.
  unfoldable pub recvmsg : ℤ → Bool → Effect (World S) (ℤ × Applied)
  unfolding when receive
  recvmsg fd named =
      if not named
      then in_world (call (kernel.recvmsg fd))
      else when_rewriting fd (receive both_pointers (kernel.recvmsg fd)) (kernel.recvmsg fd)

  abbrev pub to_destination : Option SockAddr → Option (SockAddr × ℕ)
  to_destination none = none
  to_destination (some dest) = some (dest, size dest)

  -- What a rule says to a packet; `real` is the real call at a destination.
  unfoldable pub send_by_rule :
      SockAddr → ℕ → (Option (SockAddr × ℕ) → Call S ℤ) → Option (ℕ × Rule) → Effect (State S) ℤ
  unfolding rewrite_dest size
  send_by_rule addr addrlen real none = on_process (call (real (some (addr, addrlen))))
  send_by_rule addr addrlen real (some (rulepos, rule)) = elim rule.socket_path [
    | none ↦ on_process (call (real (some (addr, addrlen))))
    | some path ↦
        if rule.reject
        then on_process
            (fail_with (elim rule.reject_errno [ none ↦ eacces | some e ↦ e ]) minus_one)
        else do
          newdest ← rewrite_dest kernel addr path
          on_process (call (real (to_destination newdest)))
  ]

  unfoldable pub send : SockAddr → ℕ → (Option (SockAddr × ℕ) → Call S ℤ) → Effect (State S) ℤ
  unfolding rewrite_dest_peermap init_rules match_rule send_by_rule size
  send addr addrlen real = do
    newdest ← rewrite_dest_peermap kernel addr
    elim newdest [
      | some dest ↦ on_process (call (real (some (dest, size dest))))
      | none ↦ do
        rules ← on_world (init_rules kernel loader)
        sock ← get_self
        send_by_rule addr addrlen real (match_rule kernel.inet addr sock.type outgoing rules)
    ]

  -- `sendto` and `sendmsg` at an address, or at none.
  unfoldable pub send_call :
      ℤ → Option (SockAddr × ℕ) → (Option (SockAddr × ℕ) → Call S ℤ) → Effect (World S) ℤ
  unfolding when send
  send_call fd none real = in_world (call (real none))
  send_call fd (some (addr, addrlen)) real =
      when_rewriting fd (send addr addrlen real) (real (some (addr, addrlen)))

  unfoldable pub sendto : ℤ → Option (SockAddr × ℕ) → Effect (World S) ℤ
  unfolding send_call
  sendto fd addr = send_call fd addr (kernel.sendto fd)

  unfoldable pub sendmsg : ℤ → Option (SockAddr × ℕ) → Effect (World S) ℤ
  unfolding send_call
  sendmsg fd name = send_call fd name (kernel.sendmsg fd)

  unfoldable pub dup : ℤ → Effect (World S) ℤ
  unfolding when Close.dup
  dup oldfd = when kernel oldfd (Close.dup kernel) (in_world (call (kernel.dup oldfd)))

  unfoldable pub dup3 : ℤ → ℤ → ℤ → Effect (World S) ℤ
  unfolding when Close.dup_onto int_eq
  dup3 oldfd newfd flags =
      let real : Effect (World S) ℤ = in_world (call (kernel.dup3 oldfd newfd flags)) in
      if int_eq oldfd newfd
      then real
      else when kernel oldfd (Close.dup_onto kernel newfd flags) real

  unfoldable pub dup2 : ℤ → ℤ → Effect (World S) ℤ
  unfolding dup3
  dup2 oldfd newfd = dup3 oldfd newfd (pos 0)

  unfoldable pub close : ℤ → Effect (World S) ℤ
  unfolding init_rules has_fd when Close.close
  close fd = do
    rules ← init_rules kernel loader
    passed ← in_world (has_fd kernel fd)
    if passed
        then pure (pos 0)
        else when kernel fd (Close.close kernel) (in_world (call (kernel.close fd)))
