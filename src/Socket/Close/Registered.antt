-- ===== src/Socket/Close/Registered.antt =====
-- Which descriptors stand for a socket after `dup` and `close`.
use ip2unix.Base.{Option, arith, if◌then◌else◌, none, not, some, ℕ, ◌&&◌, ◌≡◌}
use ip2unix.Base.Integer.{int_eq, int_eq_iff, pos, ℤ}
use ip2unix.Base.Dict.{find, find-erase, find-put}
use ip2unix.Effect.{Returns}
use ip2unix.Kernel.{Kernel, minus_one}
use ip2unix.Socket.{State}
use ip2unix.Socket.Close.{close, dup}

module _ {S : Type 0} (kernel : Kernel S) where
  abbrev pub stands_for : State S → ℤ → Option ℕ
  stands_for s fd = find int_eq s.world.registry fd

  -- `close` takes the descriptor out of the registry that the socket was made with, and no other,
  -- whichever of the socket's descriptors was to be closed; that descriptor is the one the kernel
  -- closes, unless systemd passed it.
  pub close-unregisters :
      (s : State S) (fd : ℤ)
      → Returns
          (λ (ret : ℤ) (t : State S).
            (stands_for t fd ≡ (if int_eq s.self.fd fd then none else stands_for s fd))
            × (ret ≡ (
                if s.self.activated then pos 0 else (kernel.close s.self.fd s.world.process.os).0)))
          (close kernel s)
  unfolding close
  close-unregisters s fd =
      ground (arith, find-erase int_eq int_eq_iff s.world.registry s.self.fd fd)

  -- `dup` enters the new descriptor for the same socket, and if it fails it enters none.
  pub dup-registers :
      (s : State S) (fd : ℤ)
      → Returns
          (λ (newfd : ℤ) (t : State S).
            (t.self ≡ s.self)
            × (stands_for t fd ≡ (
                if not (int_eq newfd minus_one) && int_eq newfd fd
                then some s.this
                else stands_for s fd)))
          (dup kernel s)
  unfolding dup
  dup-registers s fd = ground (
    arith,
    find-put int_eq int_eq_iff s.world.registry (kernel.dup s.self.fd s.world.process.os).0 fd
        s.this,
  )
