-- ===== src/Socket/Connect/Connected.antt =====
-- What `connect` leaves behind when it succeeds.
use ip2unix.Base.{arith, if◌then◌else◌, is_some, none, not, refl, some, true, ℕ, ◌&&◌, ◌≡◌}
use ip2unix.Base.Text.{Bytes}
use ip2unix.Base.Integer.{ℤ}
use ip2unix.Effect.{>>=-Ensures, Ensures, any_Ensures, elim_Ensures, if_Ensures, pure}
use ip2unix.Kernel.{Kernel, call, is_zero}
use ip2unix.Rules.{udp}
use ip2unix.Matching.{type_eq}
use ip2unix.SockAddr.{SockAddr, get_port, size, unix_addr}
use ip2unix.Socket.{State, on_process}
use ip2unix.Socket.Path.{format_sockpath}
use ip2unix.Socket.Unix.{make_unix}
use ip2unix.Socket.Connect.{
  bind_connected, connect, connect_converted, connect_to, connect_unbound, finish_connect,
  rewrite_dest,
}

module _ {S : Type 0} (kernel : Kernel S) where
  -- What a return value of 0 means.
  abbrev pub ConnectedTo : SockAddr → ℤ → State S → Type 0
  ConnectedTo addr ret t = is_zero ret ≡ true → t.self.connection ≡ some addr

  connect_to-ConnectedTo :
      (addr dest : SockAddr) (s : State S)
      → Ensures (ConnectedTo addr) (connect_to kernel addr dest s)
  unfolding connect_to
  connect_to-ConnectedTo addr dest s = ground arith

  connect_unbound-ConnectedTo :
      (addr : SockAddr) (path : Bytes) (s : State S)
      → Ensures (ConnectedTo addr) (connect_unbound kernel addr path s)
  unfolding connect_unbound
  connect_unbound-ConnectedTo addr path s =
      >>=-Ensures (λ _ _. Unit {0}) (ConnectedTo addr) (rewrite_dest kernel addr path) _ s
        (any_Ensures (rewrite_dest kernel addr path s))
        λ maybe_dest t _.
          elim_Ensures (ConnectedTo addr) t maybe_dest _ _ (λ _ z. cc)
            λ dest _. connect_to-ConnectedTo addr dest t

  finish_connect-ConnectedTo :
      (addr : SockAddr) (remote_port : ℕ) (ret : ℤ) (s : State S)
      → Ensures (ConnectedTo addr) (finish_connect kernel addr remote_port ret s)
  unfolding finish_connect
  finish_connect-ConnectedTo addr remote_port ret s =
      >>=-Ensures (λ _ _. Unit {0}) (ConnectedTo addr) (bind_connected kernel addr remote_port) _ s
        (any_Ensures (bind_connected kernel addr remote_port s))
        λ bound t _. if_Ensures (ConnectedTo addr) t (not bound) _ _ (λ _ z. cc) (λ _ z. refl)

  connect_converted-ConnectedTo :
      (addr dest : SockAddr) (s : State S)
      → Ensures (ConnectedTo addr) (connect_converted kernel addr dest s)
  unfolding connect_converted
  connect_converted-ConnectedTo addr dest s =
      >>=-Ensures (λ _ _. Unit {0}) (ConnectedTo addr) (make_unix kernel none) _ s
        (any_Ensures (make_unix kernel none s))
        λ converted t _.
          if_Ensures (ConnectedTo addr) t (not converted) _ _ (λ _ z. cc)
            λ _.
              elim_Ensures (ConnectedTo addr) t (get_port addr) _ _ (λ _ z. cc)
                λ remote_port _.
                  >>=-Ensures (λ _ _. Unit {0}) (ConnectedTo addr)
                    (on_process (call (kernel.connect t.self.fd dest (size dest))))
                    (λ ret.
                      if not (is_zero ret)
                      then pure ret
                      else finish_connect kernel addr remote_port ret)
                    t
                    (any_Ensures (on_process (call (kernel.connect t.self.fd dest (size dest))) t))
                    λ ret u _.
                      if_Ensures (ConnectedTo addr) u (not (is_zero ret)) _ _ (λ h z. ground arith)
                        λ _. finish_connect-ConnectedTo addr remote_port ret u

  -- If `connect` returns 0, the address that was asked for is the connection of the socket.
  pub connect-ConnectedTo :
      (addr : SockAddr) (path : Bytes) (s : State S)
      → Ensures (ConnectedTo addr) (connect kernel addr path s)
  unfolding connect
  connect-ConnectedTo addr path s =
      if_Ensures (ConnectedTo addr) s (type_eq s.self.type udp && not (is_some s.self.binding)) _ _
        (λ _. connect_unbound-ConnectedTo addr path s)
        (λ _.
          elim_Ensures (ConnectedTo addr) s
            (unix_addr (format_sockpath kernel.inet s.self.type addr path)) _ _ (λ _ z. cc)
            λ dest _. connect_converted-ConnectedTo addr dest s)
