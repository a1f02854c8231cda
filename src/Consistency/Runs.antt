-- ===== src/Consistency/Runs.antt =====
-- The runs of a program with the library, as a step relation on worlds.
use mathlib.Core.Path.{subst}
use ip2unix.Base.{Bool, Option, [], none, some, sym, ℕ, ◌≡◌}
use ip2unix.Base.Text.{Bytes}
use ip2unix.Base.Integer.{ℤ}
use ip2unix.Effect.{Effect, Ensures}
use ip2unix.Kernel.{Kernel, Process}
use ip2unix.SockAddr.{Destination, SockAddr}
use ip2unix.SockOpts.{EpollEvent}
use ip2unix.Socket.{World}
use ip2unix.Preload.{Loader}
use ip2unix.Preload.Calls
use ip2unix.Consistency.{IsConsistent, IsSoundStore}
use ip2unix.Consistency.Store.{Stays}
use ip2unix.Consistency.Packets.{recvfrom-Stays, recvmsg-Stays, sendmsg-Stays, sendto-Stays}
use ip2unix.Consistency.Calls.{
  accept4-Stays, bind-Stays, close-Stays, connect-Stays, dup-Stays, dup3-Stays, epoll_ctl-Stays,
  getpeername-Stays, getsockname-Stays, ioctl-Stays, listen-Stays, setsockopt-Stays, socket-Stays,
}

-- A call of `m` in the world `w` that returns, and leaves the world `v`.
abbrev pub Leads : {S A : Type 0} → Effect (World S) A → World S → World S → Type 0
Leads {A = A} m w v = (ret : A) × (m w ≡ some (ret, v))

-- Before the first call.
abbrev pub initial : {S : Type 0} → Process S → World S
initial p = record { process = p; sockets = []; registry = []; sockpaths = []; g_rules = none }

module _ {S : Type 0} (kernel : Kernel S) (loader : Loader S) where
  -- What the program may do: call an entry point, or anything that passes the library by.
  pub data Step (w v : World S) : Type 0 where
    socket_step :
        (domain type protocol : ℤ)
        → Leads (Calls.socket kernel loader domain type protocol) w v
        → Step w v
    setsockopt_step :
        (fd level optname : ℤ) (optval : Bytes) (optlen : ℕ)
        → Leads (Calls.setsockopt kernel loader fd level optname optval optlen) w v
        → Step w v
    ioctl_step :
        (fd : ℤ) (request : ℕ) (arg : Bytes)
        → Leads (Calls.ioctl kernel loader fd request arg) w v
        → Step w v
    epoll_ctl_step :
        (epfd op fd : ℤ) (event : Option EpollEvent)
        → Leads (Calls.epoll_ctl kernel loader epfd op fd event) w v
        → Step w v
    listen_step : (fd backlog : ℤ) → Leads (Calls.listen kernel loader fd backlog) w v → Step w v
    bind_step :
        (fd : ℤ) (addr : SockAddr) (addrlen : ℕ)
        → Leads (Calls.bind kernel loader fd addr addrlen) w v
        → Step w v
    connect_step :
        (fd : ℤ) (addr : SockAddr) (addrlen : ℕ)
        → Leads (Calls.connect kernel loader fd addr addrlen) w v
        → Step w v
    accept4_step :
        (fd : ℤ) (to : Destination) (flags : ℤ)
        → Leads (Calls.accept4 kernel loader fd to flags) w v
        → Step w v
    getpeername_step :
        (fd : ℤ) (to : Destination) → Leads (Calls.getpeername kernel loader fd to) w v → Step w v
    getsockname_step :
        (fd : ℤ) (to : Destination) → Leads (Calls.getsockname kernel loader fd to) w v → Step w v
    recvfrom_step :
        (fd : ℤ) (to : Destination) → Leads (Calls.recvfrom kernel loader fd to) w v → Step w v
    recvmsg_step :
        (fd : ℤ) (named : Bool) → Leads (Calls.recvmsg kernel loader fd named) w v → Step w v
    sendto_step :
        (fd : ℤ) (dest : Option (SockAddr × ℕ))
        → Leads (Calls.sendto kernel loader fd dest) w v
        → Step w v
    sendmsg_step :
        (fd : ℤ) (dest : Option (SockAddr × ℕ))
        → Leads (Calls.sendmsg kernel loader fd dest) w v
        → Step w v
    dup_step : (fd : ℤ) → Leads (Calls.dup kernel loader fd) w v → Step w v
    dup3_step :
        (oldfd newfd flags : ℤ) → Leads (Calls.dup3 kernel loader oldfd newfd flags) w v → Step w v
    close_step : (fd : ℤ) → Leads (Calls.close kernel loader fd) w v → Step w v
    other_step : (p : Process S) → v ≡ record w { process = p } → Step w v

  pub data Reachable : World S → Type 0 where
    start : (p : Process S) → Reachable (initial p)
    after : (w v : World S) → Reachable w → Step w v → Reachable v

  returned :
      {A : Type 0} (m : Effect (World S) A) (w v : World S)
      → Stays kernel m
      → IsConsistent w
      → Leads m w v
      → IsConsistent v
  returned m w v h c (ret, e) = subst (Ensures λ _ u. IsConsistent u) e (h w c)

  Step-IsConsistent : (w v : World S) → Step w v → IsConsistent w → IsConsistent v
  Step-IsConsistent w v (socket_step domain type protocol l) c =
      returned _ w v (socket-Stays kernel loader domain type protocol) c l
  Step-IsConsistent w v (setsockopt_step fd level optname optval optlen l) c =
      returned _ w v (setsockopt-Stays kernel loader fd level optname optval optlen) c l
  Step-IsConsistent w v (ioctl_step fd request arg l) c =
      returned _ w v (ioctl-Stays kernel loader fd request arg) c l
  Step-IsConsistent w v (epoll_ctl_step epfd op fd event l) c =
      returned _ w v (epoll_ctl-Stays kernel loader epfd op fd event) c l
  Step-IsConsistent w v (listen_step fd backlog l) c =
      returned _ w v (listen-Stays kernel loader fd backlog) c l
  Step-IsConsistent w v (bind_step fd addr addrlen l) c =
      returned _ w v (bind-Stays kernel loader fd addr addrlen) c l
  Step-IsConsistent w v (connect_step fd addr addrlen l) c =
      returned _ w v (connect-Stays kernel loader fd addr addrlen) c l
  Step-IsConsistent w v (accept4_step fd to flags l) c =
      returned _ w v (accept4-Stays kernel loader fd to flags) c l
  Step-IsConsistent w v (getpeername_step fd to l) c =
      returned _ w v (getpeername-Stays kernel loader fd to) c l
  Step-IsConsistent w v (getsockname_step fd to l) c =
      returned _ w v (getsockname-Stays kernel loader fd to) c l
  Step-IsConsistent w v (recvfrom_step fd to l) c =
      returned _ w v (recvfrom-Stays kernel loader fd to) c l
  Step-IsConsistent w v (recvmsg_step fd named l) c =
      returned _ w v (recvmsg-Stays kernel loader fd named) c l
  Step-IsConsistent w v (sendto_step fd dest l) c =
      returned _ w v (sendto-Stays kernel loader fd dest) c l
  Step-IsConsistent w v (sendmsg_step fd dest l) c =
      returned _ w v (sendmsg-Stays kernel loader fd dest) c l
  Step-IsConsistent w v (dup_step fd l) c = returned _ w v (dup-Stays kernel loader fd) c l
  Step-IsConsistent w v (dup3_step oldfd newfd flags l) c =
      returned _ w v (dup3-Stays kernel loader oldfd newfd flags) c l
  Step-IsConsistent w v (close_step fd l) c = returned _ w v (close-Stays kernel loader fd) c l
  Step-IsConsistent w v (other_step p e) c = subst IsConsistent (sym e) c

  -- However the program calls the library, no socket that was not converted to a Unix socket has an
  -- address, a connection, a peer or a path to unlink, and every descriptor in the registry stands for
  -- a socket of the store that is not destroyed.
  pub Reachable-IsConsistent : (w : World S) → Reachable w → IsConsistent w
  unfolding IsSoundStore
  Reachable-IsConsistent w (start p) = (tt, tt)
  Reachable-IsConsistent w (after u v r t) = Step-IsConsistent u w t (Reachable-IsConsistent u r)
