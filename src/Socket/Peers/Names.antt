-- ===== src/Socket/Peers/Names.antt =====
-- The program sees the addresses that it asked for.
use ip2unix.Base.{ap, arith, refl, some, suc, ℕ, ◌∙◌, ◌≡◌}
use ip2unix.Base.Text.{Bytes}
use ip2unix.Base.Integer.{pos}
use ip2unix.Effect.{Ensures}
use ip2unix.Kernel.{Kernel}
use ip2unix.SockAddr.{Destination, SockAddr, apply_addr, get_port}
use ip2unix.Socket.{State}
use ip2unix.Socket.Bind.{bind}
use ip2unix.Socket.Bind.Outcome.{Bound, bind-Bound}
use ip2unix.Socket.Connect.{connect}
use ip2unix.Socket.Connect.Connected.{ConnectedTo, connect-ConnectedTo}
use ip2unix.Socket.Peers.{getpeername, getsockname}

module _ {S : Type 0} (kernel : Kernel S) where
  getsockname_bound :
      (addr : SockAddr) (to : Destination) (t : State S)
      → t.self.binding ≡ some addr
      → getsockname kernel to t ≡ some ((pos 0, apply_addr addr to), t)
  unfolding getsockname
  getsockname_bound addr to t h = ground arith

  -- After `bind` to a port other than 0 has succeeded, `getsockname` gives the address that was bound,
  -- and changes nothing.
  pub getsockname-bind :
      (addr : SockAddr) (path : Bytes) (to : Destination) (port : ℕ) (s t : State S)
      → get_port addr ≡ some (suc port)
      → bind kernel addr path s ≡ some (pos 0, t)
      → getsockname kernel to t ≡ some ((pos 0, apply_addr addr to), t)
  getsockname-bind addr path to port s t e h =
      let bound : Ensures (Bound kernel s.self.ports addr) (some (pos 0, t)) =
        rw h at (bind-Bound kernel addr path s) in
      let r = bound refl in
      let same : r.0 ≡ addr = rw e at (r.2) in getsockname_bound addr to t (r.1 ∙ ap some same)

  -- After `connect` has succeeded, `getpeername` gives the address that was asked for, and changes
  -- nothing.
  pub getpeername-connect :
      (addr : SockAddr) (path : Bytes) (to : Destination) (s t : State S)
      → connect kernel addr path s ≡ some (pos 0, t)
      → getpeername kernel to t ≡ some ((pos 0, apply_addr addr to), t)
  unfolding getpeername
  getpeername-connect addr path to s t h =
      let connected : Ensures (ConnectedTo kernel addr) (some (pos 0, t)) =
        rw h at (connect-ConnectedTo kernel addr path s) in
      ground (arith, connected refl)
