-- ===== src/Consistency/Connect.antt =====
-- `connect` and `rewrite_dest` keep sockets sound.
use ip2unix.Base.{
  Option, arith, false, if◌then◌else◌, is_some, none, not, refl, some, true, ℕ, ◌&&◌, ◌≡◌,
}
use ip2unix.Base.Text.{Bytes}
use ip2unix.Base.Integer.{ℤ}
use ip2unix.Base.Dict.{find}
use ip2unix.Effect.{>>=-Ensures, Ensures, elim_Ensures, if_Ensures, pure, weaken_Ensures, ◌>>=◌}
use ip2unix.Kernel.{Kernel, call, eaddrnotavail, efault, fail_with, is_zero, minus_one}
use ip2unix.Rules.{udp}
use ip2unix.Matching.{type_eq}
use ip2unix.SockAddr.{SockAddr, equals, get_port, size, unix_addr}
use ip2unix.Socket.{Socket, State, get_self, on_process}
use ip2unix.Socket.Path.{format_sockpath}
use ip2unix.Socket.Unix.{create_binding, reserve_port}
use ip2unix.Consistency.Bind.{make_unix-Ensures, make_unix-then}
use ip2unix.Socket.Connect.{
  bind_connected, bind_implicitly, connect, connect_converted, connect_peermap, connect_to,
  connect_unbound, finish_connect, rewrite_dest,
}
use ip2unix.Consistency.{
  Converted, Holds, IsConverted, IsSound, Keeps, converted_Ensures, converted_IsSound, elim_Keeps,
  if_Keeps, on_process-Keeps, then_Keeps,
}

module _ {S : Type 0} (kernel : Kernel S) where
  bind_implicitly-Keeps : (addr : SockAddr) → Keeps IsConverted (bind_implicitly kernel addr)
  unfolding bind_implicitly create_binding
  bind_implicitly-Keeps addr s (i, c) = ground arith

  connect_to-Keeps : (addr dest : SockAddr) → Keeps IsConverted (connect_to kernel addr dest)
  unfolding connect_to
  connect_to-Keeps addr dest s (i, c) = ground arith

  finish_connect-Keeps :
      (addr : SockAddr) (remote_port : ℕ) (ret : ℤ)
      → Keeps IsConverted (finish_connect kernel addr remote_port ret)
  unfolding finish_connect bind_connected create_binding reserve_port
  finish_connect-Keeps addr remote_port ret s (i, c) = ground arith

  connect_converted-Keeps :
      (addr dest : SockAddr) → Keeps IsSound (connect_converted kernel addr dest)
  unfolding connect_converted
  connect_converted-Keeps addr dest =
      make_unix-then kernel none (pure minus_one) _ (λ s i. i)
        (elim_Keeps IsConverted (get_port addr) _ _
          (on_process-Keeps IsConverted (fail_with eaddrnotavail minus_one))
          λ remote_port s.
            then_Keeps IsConverted (on_process (call (kernel.connect s.self.fd dest (size dest)))) _
              (on_process-Keeps IsConverted (call (kernel.connect s.self.fd dest (size dest))))
              (λ ret.
                if_Keeps IsConverted (not (is_zero ret)) (pure ret)
                  (finish_connect kernel addr remote_port ret) (λ t i. i)
                  (finish_connect-Keeps addr remote_port ret))
              s)

  -- The body of `rewrite_dest` behind the conversion.
  bound_Keeps :
      (addr destpath : SockAddr)
      → Keeps IsConverted (do
        converted_sock ← get_self
        bound ← if is_some converted_sock.binding then pure true else bind_implicitly kernel addr
        pure (if bound then some destpath else none))
  bound_Keeps addr destpath s =
      then_Keeps IsConverted
        (if is_some s.self.binding then pure true else bind_implicitly kernel addr) _
        (if_Keeps IsConverted (is_some s.self.binding) (pure true) (bind_implicitly kernel addr)
          (λ t i. i) (bind_implicitly-Keeps addr))
        (λ bound t i. i) s

  none_Converted : (t : State S) → Holds IsSound t → Converted false t
  none_Converted t i = (i, λ e. ground arith)

  -- Where `rewrite_dest` has a destination, the socket is converted.
  rewrite_dest-Converted :
      (addr : SockAddr) (path : Bytes) (s : State S)
      → Holds IsSound s
      → Ensures
          (λ (o : Option SockAddr) t. Converted (is_some o) t)
          (rewrite_dest kernel addr path s)
  unfolding rewrite_dest
  rewrite_dest-Converted addr path s i =
      let Q : Option SockAddr → State S → Type 0 = λ o t. Converted (is_some o) t in
      if_Ensures Q s (not (type_eq s.self.type udp)) (pure none) _ (λ _. none_Converted s i)
        λ _.
          elim_Ensures Q s (unix_addr (format_sockpath kernel.inet s.self.type addr path))
            (pure none) _ (λ _. none_Converted s i)
            λ destpath _.
              make_unix-Ensures kernel Q none (pure none) _ none_Converted
                (λ t j.
                  weaken_Ensures (λ _ u. Holds IsConverted u) Q _
                    (λ _ u k. (converted_IsSound u k, λ _. k)) (bound_Keeps addr destpath t j))
                s i

  pub rewrite_dest-Keeps :
      (addr : SockAddr) (path : Bytes) → Keeps IsSound (rewrite_dest kernel addr path)
  rewrite_dest-Keeps addr path s i =
      weaken_Ensures (λ (o : Option SockAddr) t. Converted (is_some o) t) (λ _ t. Holds IsSound t)
        (rewrite_dest kernel addr path s) (λ _ t. λ c. c.0) (rewrite_dest-Converted addr path s i)

  connect_unbound-Keeps :
      (addr : SockAddr) (path : Bytes) → Keeps IsSound (connect_unbound kernel addr path)
  unfolding connect_unbound
  connect_unbound-Keeps addr path s i =
      >>=-Ensures (λ (o : Option SockAddr) t. Converted (is_some o) t) (λ _ t. Holds IsSound t)
        (rewrite_dest kernel addr path) _ s (rewrite_dest-Converted addr path s i)
        λ maybe_dest t (j, c).
          elim_Ensures (λ _ t'. Holds IsSound t') t maybe_dest
            (on_process (fail_with eaddrnotavail minus_one)) (connect_to kernel addr)
            (λ _. on_process-Keeps IsSound (fail_with eaddrnotavail minus_one) t j)
            λ dest e.
              converted_Ensures (connect_to kernel addr dest t)
                (connect_to-Keeps addr dest t (c (rw e refl)))

  pub connect-Keeps : (addr : SockAddr) (path : Bytes) → Keeps IsSound (connect kernel addr path)
  unfolding connect
  connect-Keeps addr path s =
      if_Keeps IsSound (type_eq s.self.type udp && not (is_some s.self.binding))
        (connect_unbound kernel addr path) _ (connect_unbound-Keeps addr path)
        (elim_Keeps IsSound (unix_addr (format_sockpath kernel.inet s.self.type addr path))
          (on_process (fail_with efault minus_one)) (connect_converted kernel addr)
          (on_process-Keeps IsSound (fail_with efault minus_one)) (connect_converted-Keeps addr))
        s

  known_IsConverted :
      (sock : Socket) (addr : SockAddr) (path : Bytes)
      → IsSound sock
      → find equals sock.peermap addr ≡ some path
      → IsConverted sock
  unfolding find
  known_IsConverted sock addr path i e = ground arith

  pub connect_peermap-Keeps : (addr : SockAddr) → Keeps IsSound (connect_peermap kernel addr)
  unfolding connect_peermap
  connect_peermap-Keeps addr s i =
      if_Ensures (λ _ t. Holds IsSound t) s (not (type_eq s.self.type udp)) (pure none) _ (λ _. i)
        λ _.
          elim_Ensures (λ _ t. Holds IsSound t) s (find equals s.self.peermap addr) (pure none) _
            (λ _. i)
            λ path e.
              elim_Ensures (λ _ t. Holds IsSound t) s (unix_addr path)
                (on_process (fail_with efault (some minus_one))) _
                (λ _. on_process-Keeps IsSound (fail_with efault (some minus_one)) s i)
                λ dest _.
                  converted_Ensures
                    ((connect_to kernel addr dest >>= λ (ret : ℤ). pure (some ret)) s)
                    (then_Keeps IsConverted (connect_to kernel addr dest)
                      (λ (ret : ℤ). pure (some ret)) (connect_to-Keeps addr dest) (λ ret u k. k) s
                      (known_IsConverted s.self addr path i.0 e, i.1))
