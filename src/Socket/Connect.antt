-- ===== src/Socket/Connect.antt =====
-- `Socket::rewrite_dest`, `connect` and `connect_peermap`: where the packets of a socket go.
pub mod Connected
use ip2unix.Base.{Bool, Option, false, if◌then◌else◌, is_some, none, not, some, true, ℕ, ◌&&◌}
use ip2unix.Base.Text.{Bytes}
use ip2unix.Base.Integer.{ℤ}
use ip2unix.Base.Dict.{find}
use ip2unix.Rules.{udp}
use ip2unix.Effect.{Effect, pure, ◌>>=◌, ◌>>◌}
use ip2unix.Kernel.{Kernel, call, eaddrnotavail, efault, fail_with, is_zero, minus_one}
use ip2unix.Matching.{type_eq}
use ip2unix.SockAddr.{SockAddr, create, equals, get_port, inet, size, unix_addr}
use ip2unix.BlackHole
use ip2unix.Socket.{Socket, State, get_self, on_process, on_self}
use ip2unix.Socket.Path.{format_sockpath}
use ip2unix.Socket.Options.{blackhole}
use ip2unix.Socket.Unix.{create_binding, give_up, make_unix, reserve_port}

module _ {S : Type 0} (kernel : Kernel S) where
  -- The block under `if (!this->binding)`; the result is whether it is passed.
  unfoldable pub bind_implicitly : SockAddr → Effect (State S) Bool
  unfolding unix_addr size create_binding BlackHole.create BlackHole.destroy
  bind_implicitly addr = do
    bh ← on_process (BlackHole.create kernel)
    let give_up : Effect (State S) Bool = do on_process (BlackHole.destroy kernel bh); pure false
    elim bh.filepath [
      | none ↦ give_up
      | some bh_path ↦ elim (unix_addr bh_path) [
        | none ↦ give_up
        | some dest ↦ do
          sock ← get_self
          ret ← on_process (call (kernel.bind sock.fd dest (size dest)))
          bound ← if is_zero ret then create_binding kernel addr else pure false
          if not bound then give_up else do
            on_self λ (self : Socket). record (blackhole self) { blackhole_ref = some bh }
            pure true
      ]
    ]

  unfoldable pub rewrite_dest : SockAddr → Bytes → Effect (State S) (Option SockAddr)
  unfolding make_unix format_sockpath bind_implicitly unix_addr type_eq
  rewrite_dest addr path = do
    sock ← get_self
    if not (type_eq sock.type udp)
        then pure none
        else elim (unix_addr (format_sockpath kernel.inet sock.type addr path)) [
          | none ↦ pure none
          | some destpath ↦ do
            converted ← make_unix kernel none
            if not converted then pure none else do
              converted_sock ← get_self
              bound ← if is_some converted_sock.binding then pure true else bind_implicitly addr
              pure (if bound then some destpath else none)
        ]

  -- `real::connect`, and the address that was asked for as the connection of the socket.
  unfoldable pub connect_to : SockAddr → SockAddr → Effect (State S) ℤ
  unfolding size
  connect_to addr dest = do
    sock ← get_self
    ret ← on_process (call (kernel.connect sock.fd dest (size dest)))
    on_self λ (self : Socket). if is_zero ret then record self { connection = some addr } else self
    pure ret

  unfoldable pub connect_peermap : SockAddr → Effect (State S) (Option ℤ)
  unfolding connect_to unix_addr find equals type_eq
  connect_peermap addr = do
    sock ← get_self
    if not (type_eq sock.type udp) then pure none else elim (find equals sock.peermap addr) [
      | none ↦ pure none
      | some path ↦ elim (unix_addr path) [
        | none ↦ on_process (fail_with efault (some minus_one))
        | some dest ↦ do ret ← connect_to addr dest; pure (some ret)
      ]
    ]

  -- A datagram socket without a binding.
  unfoldable pub connect_unbound : SockAddr → Bytes → Effect (State S) ℤ
  unfolding rewrite_dest connect_to
  connect_unbound addr path = do
    maybe_dest ← rewrite_dest addr path
    elim maybe_dest [
      | none ↦ on_process (fail_with eaddrnotavail minus_one)
      | some dest ↦ connect_to addr dest
    ]

  -- The block under `if (!this->binding)`; the result is whether it is passed.
  unfoldable pub bind_connected : SockAddr → ℕ → Effect (State S) Bool
  unfolding create_binding reserve_port
  bind_connected addr remote_port = do
    sock ← get_self
    if is_some sock.binding then pure true else do
      created ← create_binding kernel addr
      if not created then pure false else do reserve_port kernel remote_port; pure true

  -- What follows a call of `connect` that returned 0.
  unfoldable pub finish_connect : SockAddr → ℕ → ℤ → Effect (State S) ℤ
  unfolding bind_connected
  finish_connect addr remote_port ret = do
    bound ← bind_connected addr remote_port
    if not bound
        then on_process (fail_with eaddrnotavail minus_one)
        else do on_self λ (self : Socket). record self { connection = some addr }; pure ret

  unfoldable pub connect_converted : SockAddr → SockAddr → Effect (State S) ℤ
  unfolding make_unix finish_connect get_port size
  connect_converted addr dest = do
    converted ← make_unix kernel none
    if not converted then pure minus_one else elim (get_port addr) [
      | none ↦ on_process (fail_with eaddrnotavail minus_one)
      | some remote_port ↦ do
        sock ← get_self
        ret ← on_process (call (kernel.connect sock.fd dest (size dest)))
        if not (is_zero ret) then pure ret else finish_connect addr remote_port ret
    ]

  unfoldable pub connect : SockAddr → Bytes → Effect (State S) ℤ
  unfolding connect_unbound connect_converted format_sockpath unix_addr type_eq
  connect addr path = do
    sock ← get_self
    if type_eq sock.type udp && not (is_some sock.binding)
        then connect_unbound addr path
        else elim (unix_addr (format_sockpath kernel.inet sock.type addr path)) [
          | none ↦ on_process (fail_with efault minus_one)
          | some dest ↦ connect_converted addr dest
        ]
