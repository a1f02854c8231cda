-- ===== src/Socket/Close.antt =====
-- `Socket::dup`, `close` and `unregister`, and the destructor.
pub mod Registered
use ip2unix.Base.{List, Option, [], get_elem?, if◌then◌else◌, none, some, suc, zero, ℕ, ◌==◌, ◌∷◌}
use ip2unix.Base.Text.{Bytes, bytes_eq}
use ip2unix.Base.Integer.{int_eq, pos, ℤ}
use ip2unix.Base.Dict.{erase, find, put, remove}
use ip2unix.Effect.{Effect, gets, modify, pure, ◌>>=◌, ◌>>◌}
use ip2unix.Kernel.{Kernel, Process, call, get_errno, minus_one, set_errno}
use ip2unix.SockAddr.{until_nul}
use ip2unix.BlackHole
use ip2unix.Socket.{Socket, State, World, get_self, on_process, on_self, on_world, register}

module _ {S : Type 0} (kernel : Kernel S) where
  -- `int old_errno = errno; unlink(path.c_str()); errno = old_errno;`
  unfoldable pub unlink_path : Bytes → Effect (Process S) (Unit {0})
  unfolding until_nul
  unlink_path path = do
    old_errno ← get_errno
    unlinked ← call (kernel.unlink (until_nul path))
    set_errno old_errno

  -- `Socket::registry.erase(this->fd)`.
  unfoldable pub unregister : Effect (State S) (Unit {0})
  unfolding erase int_eq
  unregister = do
    sock ← get_self
    on_world (modify λ (w : World S). record w { registry = erase int_eq w.registry sock.fd })

  -- The block under `if (this->unlink_sockpath)`.
  unfoldable pub forget_path : Option Bytes → Effect (State S) (Unit {0})
  unfolding unlink_path remove bytes_eq
  forget_path none = pure tt
  forget_path (some path) = do
    on_process (unlink_path path)
    on_world (modify λ (w : World S). record w { sockpaths = remove bytes_eq w.sockpaths path })
    on_self λ (self : Socket). record self { unlink_sockpath = none }

  unfoldable pub close : Effect (State S) ℤ
  unfolding forget_path unregister
  close = do
    sock ← get_self
    ret ← if sock.activated then pure (pos 0) else do
      closed ← on_process (call (kernel.close sock.fd))
      forget_path sock.unlink_sockpath
      pure closed
    unregister
    pure ret

  -- `Socket::registry[newfd] = this->getptr()`.
  unfoldable pub register_this : ℤ → Effect (State S) (Unit {0})
  unfolding put int_eq
  register_this newfd s = on_world (register kernel newfd s.this) s

  -- `dup()`.
  unfoldable pub dup : Effect (State S) ℤ
  unfolding register_this int_eq
  dup = do
    sock ← get_self
    newfd ← on_process (call (kernel.dup sock.fd))
    if int_eq newfd minus_one then pure newfd else do register_this newfd; pure newfd

  -- The socket at a pointer.
  unfoldable pub at_pointer : World S → ℕ → Option Socket
  at_pointer w p = elim (get_elem? w.sockets p) [ none ↦ none | some cell ↦ cell ]

  abbrev pub put_socket : List (Option Socket) → ℕ → Option Socket → List (Option Socket)
  put_socket [] p cell = []
  put_socket (c ∷ sockets) zero cell = cell ∷ sockets
  put_socket (c ∷ sockets) (suc p) cell = c ∷ put_socket sockets p cell

  -- A method of the socket at a pointer, called from outside the class.
  unfoldable pub with_this : {A : Type 0} → ℕ → Effect (State S) A → Effect (World S) A
  unfolding at_pointer
  with_this p method w = elim (at_pointer w p) [
    | none ↦ none
    | some sock ↦ elim (method (record { this = p; self = sock; world = w })) [
      | none ↦ none
      | some (a, s) ↦
          some (a, record s.world { sockets = put_socket s.world.sockets p (some s.self) })
    ]
  ]

  -- A method of another socket, which may be this one.
  unfoldable pub call_other : ℕ → Effect (State S) ℤ → Effect (State S) ℤ
  unfolding with_this
  call_other p method s = if p == s.this then method s else on_world (with_this p method) s

  -- `dup(newfd, flags)`.
  unfoldable pub dup_onto : ℤ → ℤ → Effect (State S) ℤ
  unfolding find int_eq call_other close register_this
  dup_onto newfd flags = do
    registry ← gets λ s. s.world.registry
    closed ← elim (find int_eq registry newfd) [
      | none ↦ pure (pos 0)
      | some existing ↦ call_other existing close
    ]
    sock ← get_self
    ret ← on_process (call (kernel.dup3 sock.fd newfd flags))
    if int_eq ret minus_one then pure ret else do register_this ret; pure ret

  -- `~Socket()`, and the members' destructors behind it.
  unfoldable pub destroy : Socket → Effect (Process S) (Unit {0})
  unfolding unlink_path BlackHole.destroy
  destroy sock = do
    elim sock.unlink_sockpath [ none ↦ pure tt | some path ↦ unlink_path path ]
    elim sock.blackhole_ref [ none ↦ pure tt | some bh ↦ BlackHole.destroy kernel bh ]
