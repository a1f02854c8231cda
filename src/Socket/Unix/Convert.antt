-- ===== src/Socket/Unix/Convert.antt =====
-- What `make_unix` leaves behind on each of its ways out.
use ip2unix.Base.{Bool, Option, arith, ◌≡◌}
use ip2unix.Base.Integer.{ℤ}
use ip2unix.Effect.{Returns}
use ip2unix.Kernel.{Kernel}
use ip2unix.Socket.{State}
use ip2unix.Socket.Unix.{make_unix}

module _ {S : Type 0} (kernel : Kernel S) where
  -- A conversion of `s` ended in `t`: `errno` is as it was, and so is all of the socket but the
  -- options that are left to replay and `is_unix`, which says whether it succeeded.
  pub record Converts (s : State S) (ok : Bool) (t : State S) : Type 0 where
    pub same_errno : t.world.process.errno ≡ s.world.process.errno
    pub unix_if_ok : t.self.is_unix ≡ ok
    pub same_binding : t.self.binding ≡ s.self.binding
    pub same_connection : t.self.connection ≡ s.self.connection
    pub same_unlink : t.self.unlink_sockpath ≡ s.self.unlink_sockpath
    pub same_ports : t.self.ports ≡ s.self.ports
    pub same_type : t.self.type ≡ s.self.type
    pub same_fd : t.self.fd ≡ s.self.fd
    pub same_this : t.this ≡ s.this
    pub same_registry : t.world.registry ≡ s.world.registry
    pub same_sockets : t.world.sockets ≡ s.world.sockets
    pub same_sockpaths : t.world.sockpaths ≡ s.world.sockpaths

  -- `make_unix` returns, and leaves `errno` as it was. If it returns true the socket is a Unix socket,
  -- and if it returns false it is none; neither its addresses, ports and paths nor the tables of
  -- sockets and paths have changed.
  pub make_unix-Converts :
      (oldfd : Option ℤ) (s : State S) → Returns (Converts s) (make_unix kernel oldfd s)
  unfolding make_unix
  make_unix-Converts oldfd s = ground arith
