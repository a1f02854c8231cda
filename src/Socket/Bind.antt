-- ===== src/Socket/Bind.antt =====
-- `Socket::bind`.
pub mod Outcome
use ip2unix.Base.{Option, if◌then◌else◌, none, not, some, ℕ, ◌==◌, ◌||◌, ◌∷◌}
use ip2unix.Base.Text.{Bytes, bytes_eq}
use ip2unix.Base.Integer.{pos, ℤ}
use ip2unix.Base.Dict.{has}
use ip2unix.Effect.{Effect, gets, modify, pure, ◌>>=◌, ◌>>◌}
use ip2unix.Kernel.{Kernel, call, efault, fail_with, is_zero, minus_one}
use ip2unix.SockAddr.{SockAddr, create, get_port, inet, set_port, size, unix_addr, until_nul}
use ip2unix.BlackHole
use ip2unix.BlackHole.{BlackHole, destroy}
use ip2unix.Socket.{Socket, State, World, get_self, on_process, on_self, on_world}
use ip2unix.Socket.Path.{format_sockpath}
use ip2unix.Socket.Options.{blackhole}
use ip2unix.Socket.Unix.{acquire_port, make_unix, reserve_port}

module _ {S : Type 0} (kernel : Kernel S) where
  -- `USOCK_OR_EFAULT(path)`, and `bind` to it.
  unfoldable pub bind_unix : Bytes → Effect (State S) ℤ
  unfolding unix_addr size
  bind_unix path = elim (unix_addr path) [
    | none ↦ on_process (fail_with efault minus_one)
    | some dest ↦ do sock ← get_self; on_process (call (kernel.bind sock.fd dest (size dest)))
  ]

  unfoldable pub bind_optional : Option Bytes → Effect (State S) ℤ
  unfolding bind_unix
  bind_optional none = pure minus_one
  bind_optional (some path) = bind_unix path

  -- The branch for a black hole, whose files are removed at its end.
  unfoldable pub bind_blackhole : Effect (State S) ℤ
  unfolding bind_optional BlackHole.create BlackHole.destroy
  bind_blackhole = do
    bh ← on_process (BlackHole.create kernel)
    ret ← bind_optional bh.filepath
    on_self λ (self : Socket). if is_zero ret then blackhole self else self
    on_process (BlackHole.destroy kernel bh)
    pure ret

  -- The branch for a path that no other socket has.
  unfoldable pub bind_path : Bytes → Effect (State S) ℤ
  unfolding bind_unix until_nul
  bind_path newpath = do
    sock ← get_self
    unlinked ←
        if sock.reuse_addr
        then on_process (call (kernel.unlink (until_nul newpath)))
        else pure (pos 0)
    ret ← bind_unix newpath
    if is_zero ret
        then (do
          on_world (modify λ (w : World S). record w { sockpaths = newpath ∷ w.sockpaths })
          on_self λ (self : Socket). record self { unlink_sockpath = some newpath }
          pure ret)
        else pure ret

  -- `newaddr`, and its port: another port is taken for the port 0.
  unfoldable pub choose_port : SockAddr → Effect (State S) (SockAddr × Option ℕ)
  unfolding acquire_port get_port set_port
  choose_port addr = elim (get_port addr) [
    | none ↦ pure (addr, none)
    | some port ↦
        if port == 0
        then (do
          anyport ← acquire_port kernel
          pure
              (elim (set_port addr anyport) [ none ↦ addr | some newaddr ↦ newaddr ], some anyport))
        else pure (addr, some port)
  ]

  -- What follows a call that returned 0.
  unfoldable pub set_binding : SockAddr → Option ℕ → Effect (State S) (Unit {0})
  unfolding reserve_port
  set_binding newaddr port = do
    elim port [ none ↦ pure tt | some n ↦ reserve_port kernel n ]
    on_self λ (self : Socket). record self { binding = some newaddr }

  unfoldable pub finish_bind : SockAddr × Option ℕ → ℤ → Effect (State S) ℤ
  unfolding set_binding
  finish_bind chosen ret =
      if is_zero ret then (do set_binding chosen.0 chosen.1; pure ret) else pure ret

  -- The two branches, at the path that the rule's path stands for.
  unfoldable pub bind_chosen : SockAddr → Bytes → Effect (State S) ℤ
  unfolding format_sockpath has bytes_eq bind_blackhole bind_path
  bind_chosen newaddr path = do
    sock ← get_self
    sockpaths ← gets λ s. s.world.sockpaths
    let newpath = format_sockpath kernel.inet sock.type newaddr path
    if sock.is_blackhole || has bytes_eq sockpaths newpath
        then bind_blackhole
        else bind_path newpath

  -- From the choice of the port on.
  unfoldable pub bind_address : SockAddr → Bytes → Effect (State S) ℤ
  unfolding choose_port bind_chosen finish_bind
  bind_address addr path = do
    chosen ← choose_port addr
    ret ← bind_chosen chosen.0 path
    finish_bind chosen ret

  unfoldable pub bind : SockAddr → Bytes → Effect (State S) ℤ
  unfolding make_unix bind_address
  bind addr path = do
    converted ← make_unix kernel none
    if not converted then pure minus_one else bind_address addr path
