-- ===== src/Consistency/Bind.antt =====
-- The conversion, `bind` and `activate` keep sockets sound.
use ip2unix.Base.{Bool, Option, arith, false, if◌then◌else◌, none, not, some, true, ℕ, ◌||◌}
use ip2unix.Base.Text.{Bytes, bytes_eq}
use ip2unix.Base.Integer.{int_eq, pos, ℤ}
use ip2unix.Base.Dict.{has}
use ip2unix.Effect.{>>=-Ensures, Effect, Ensures, if_Ensures, pure, ◌>>=◌, ◌>>◌}
use ip2unix.Kernel.{Kernel, minus_one}
use ip2unix.SockAddr.{SockAddr}
use ip2unix.Socket.{Socket, State, on_self}
use ip2unix.Socket.Path.{format_sockpath}
use ip2unix.Socket.Unix.{acquire_port, activate, create_binding, make_unix, reserve_port}
use ip2unix.Socket.Bind.{
  bind, bind_address, bind_blackhole, bind_chosen, bind_path, bind_unix, choose_port, finish_bind,
  set_binding,
}
use ip2unix.Consistency.{
  Converted, Holds, IsConverted, IsSound, Keeps, converted_Ensures, if_Keeps, on_self-Keeps,
  then_Keeps,
}

module _ {S : Type 0} (kernel : Kernel S) where
  make_unix-Converted :
      (oldfd : Option ℤ) (s : State S)
      → Holds IsSound s
      → Ensures Converted (make_unix kernel oldfd s)
  unfolding make_unix
  make_unix-Converted oldfd s (i, c) = ground arith

  -- A method that gives up if `make_unix` fails.
  pub make_unix-Ensures :
      {A : Type 0} (Q : A → State S → Type 0) (oldfd : Option ℤ) (m n : Effect (State S) A)
      → ((t : State S) → Holds IsSound t → Ensures Q (m t))
      → ((t : State S) → Holds IsConverted t → Ensures Q (n t))
      → (s : State S) → Holds IsSound s
      → Ensures Q ((make_unix kernel oldfd >>= λ converted. if not converted then m else n) s)
  make_unix-Ensures Q oldfd m n h k s i =
      >>=-Ensures Converted Q (make_unix kernel oldfd) _ s (make_unix-Converted oldfd s i)
        λ converted t (j, u).
          if_Ensures Q t (not converted) m n (λ _. h t j) λ e. k t (u (ground arith))

  pub make_unix-then :
      {A : Type 0} (oldfd : Option ℤ) (m n : Effect (State S) A)
      → Keeps IsSound m
      → Keeps IsConverted n
      → Keeps IsSound (make_unix kernel oldfd >>= λ converted. if not converted then m else n)
  make_unix-then oldfd m n h k =
      make_unix-Ensures (λ _ t. Holds IsSound t) oldfd m n h λ t i. converted_Ensures (n t) (k t i)

  pub acquire_port-Keeps : Keeps IsConverted (acquire_port kernel)
  unfolding acquire_port
  acquire_port-Keeps s (i, c) = ground arith

  pub reserve_port-Keeps : (port : ℕ) → Keeps IsConverted (reserve_port kernel port)
  unfolding reserve_port
  reserve_port-Keeps port s (i, c) = ground arith

  pub create_binding-Keeps : (addr : SockAddr) → Keeps IsConverted (create_binding kernel addr)
  unfolding create_binding
  create_binding-Keeps addr s (i, c) = ground arith

  bind_unix-Keeps : (path : Bytes) → Keeps IsConverted (bind_unix kernel path)
  unfolding bind_unix
  bind_unix-Keeps path s (i, c) = ground arith

  bind_blackhole-Keeps : Keeps IsConverted (bind_blackhole kernel)
  unfolding bind_blackhole
  bind_blackhole-Keeps s (i, c) = ground arith

  bind_path-Keeps : (path : Bytes) → Keeps IsConverted (bind_path kernel path)
  unfolding bind_path bind_unix
  bind_path-Keeps path s (i, c) = ground arith

  choose_port-Keeps : (addr : SockAddr) → Keeps IsConverted (choose_port kernel addr)
  unfolding choose_port acquire_port
  choose_port-Keeps addr s (i, c) = ground arith

  finish_bind-Keeps :
      (chosen : SockAddr × Option ℕ) (ret : ℤ) → Keeps IsConverted (finish_bind kernel chosen ret)
  unfolding finish_bind set_binding reserve_port
  finish_bind-Keeps chosen ret s (i, c) = ground arith

  bind_chosen-Keeps :
      (newaddr : SockAddr) (path : Bytes) → Keeps IsConverted (bind_chosen kernel newaddr path)
  unfolding bind_chosen
  bind_chosen-Keeps newaddr path s =
      let newpath = format_sockpath kernel.inet s.self.type newaddr path in
      if_Keeps IsConverted (s.self.is_blackhole || has bytes_eq s.world.sockpaths newpath)
        (bind_blackhole kernel) (bind_path kernel newpath) bind_blackhole-Keeps
        (bind_path-Keeps newpath) s

  bind_address-Keeps :
      (addr : SockAddr) (path : Bytes) → Keeps IsConverted (bind_address kernel addr path)
  unfolding bind_address
  bind_address-Keeps addr path =
      then_Keeps IsConverted (choose_port kernel addr) _ (choose_port-Keeps addr) λ chosen.
        then_Keeps IsConverted (bind_chosen kernel chosen.0 path) (finish_bind kernel chosen)
          (bind_chosen-Keeps chosen.0 path) (finish_bind-Keeps chosen)

  pub bind-Keeps : (addr : SockAddr) (path : Bytes) → Keeps IsSound (bind kernel addr path)
  unfolding bind
  bind-Keeps addr path =
      make_unix-then none (pure minus_one) (bind_address kernel addr path) (λ s i. i)
        (bind_address-Keeps addr path)

  pub activate-Keeps :
      (addr : SockAddr) (filedes : ℤ) (is_inet : Bool)
      → Keeps IsSound (activate kernel addr filedes is_inet)
  unfolding activate
  activate-Keeps addr filedes is_inet =
      let is_off : Socket → Socket = λ self. record self {
        rewrite_peer_address = if is_inet then false else self.rewrite_peer_address;
      } in
      then_Keeps IsSound (on_self is_off) _ (on_self-Keeps IsSound is_off λ sock i. i) λ u.
        make_unix-then (if int_eq filedes minus_one then none else some filedes) (pure minus_one)
          (do
            on_self λ (self : Socket). record self { binding = some addr; activated = true }
            pure (pos 0))
          (λ s i. i) (λ s i. i)
