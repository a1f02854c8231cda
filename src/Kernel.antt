-- ===== src/Kernel.antt =====
-- The calls of libc that the preloaded library makes, as functions on a state `S` of the operating
-- system, and the state of the process around them.
use ip2unix.Base.{Bool, List, Option, false, none, some, ℕ, ◌==◌}
use ip2unix.Base.Text.{Bytes}
use ip2unix.Base.Integer.{negsuc, pos, ℤ}
use ip2unix.Effect.{Effect}
use ip2unix.SockAddr.{Cred, Destination, Family, Inet, SockAddr}
use ip2unix.SockOpts.{EpollEvent, Setting}

-- What the call returns, and the new value of `errno` if it sets one.
abbrev pub Call : Type 0 → Type 0 → Type 0
Call S A = S → A × Option ℤ × S

-- What is written to the caller's pointers: an address, and its length.
abbrev pub Applied : Type 0
Applied = Option (SockAddr × ℕ)

-- An address is handed over with its size. A `none` in a result is a null pointer or -1.
pub record Kernel (S : Type 0) : Type 0 where
  pub socket : ℤ → ℤ → ℤ → Call S ℤ
  pub setsockopt : ℤ → ℤ → ℤ → Bytes → ℕ → Call S ℤ
  pub ioctl : ℤ → ℕ → Bytes → Call S ℤ
  pub epoll_ctl : ℤ → ℤ → ℤ → Option EpollEvent → Call S ℤ
  pub listen : ℤ → ℤ → Call S ℤ
  pub bind : ℤ → SockAddr → ℕ → Call S ℤ
  pub connect : ℤ → SockAddr → ℕ → Call S ℤ
  pub accept4 : ℤ → Destination → ℤ → Call S (ℤ × Applied)
  pub peer_credentials : ℤ → Call S (Option Cred)
  pub own_credentials : S → Cred
  pub getsockname : ℤ → Destination → Call S (ℤ × Applied)
  pub getpeername : ℤ → Destination → Call S (ℤ × Applied)
  pub recvfrom : ℤ → Destination → Call S (ℤ × Applied)
  pub recvmsg : ℤ → Call S (ℤ × Applied)
  pub sendmsg : ℤ → Option (SockAddr × ℕ) → Call S ℤ
  pub sendto : ℤ → Option (SockAddr × ℕ) → Call S ℤ
  pub dup : ℤ → Call S ℤ
  pub dup2 : ℤ → ℤ → Call S ℤ
  pub dup3 : ℤ → ℤ → ℤ → Call S ℤ
  pub close : ℤ → Call S ℤ
  pub unlink : Bytes → Call S ℤ
  pub rmdir : Bytes → Call S ℤ
  pub mkdtemp : Bytes → Call S (Option Bytes)
  pub realpath : Bytes → Call S (Option Bytes)
  pub access_writable : Bytes → Call S ℤ
  pub stat_is_dir : Bytes → Call S (Option Bool)
  pub current_dir : Call S (Option Bytes)
  pub getenv : Bytes → S → Option Bytes
  pub setenv : Bytes → Bytes → Call S ℤ
  pub unsetenv : Bytes → Call S ℤ
  pub socket_domain : ℤ → Call S (Option ℤ)
  pub get_setting : Setting → ℤ → S → Option ℤ × S
  pub set_setting : Setting → ℤ → ℤ → S → Bool × S
  pub get_owner : ℤ → S → Option (ℤ × ℤ) × S
  pub set_owner : ℤ → ℤ × ℤ → S → Bool × S
  -- The random numbers of src/rng.hh: a port, an offset out of the generated table, and the hosts.
  pub random_port : S → ℕ × S
  pub random_offset : S → ℕ × S
  pub random_host : Family → S → ℕ × S
  pub inet : Inet

-- The static variables of src/systemd.cc: descriptors that belong to a rule, those of the pool, and
-- all that systemd passed.
pub record Tables : Type 0 where
  pub fdmap : List (ℕ × (ℤ × Bool))
  pub fds : List (ℤ × Bool)
  pub all_fds : List ℤ
  pub fetch_done : Bool

-- `tempdir` is the local static of `BlackHole()`, once it has a value.
pub record Process (S : Type 0) : Type 0 where
  pub os : S
  pub errno : ℤ
  pub tempdir : Option Bytes
  pub tables : Tables

module _ {S : Type 0} where
  abbrev pub call : {A : Type 0} → Call S A → Effect (Process S) A
  call c p =
      let (a, e, os') = c p.os in
      some (a, record p { os = os'; errno = elim e [ none ↦ p.errno | some n ↦ n ] })

  -- A call that leaves `errno` alone.
  abbrev pub draw : {A : Type 0} → (S → A × S) → Effect (Process S) A
  draw f p = let (a, os') = f p.os in some (a, record p { os = os' })

  abbrev pub get_errno : Effect (Process S) ℤ
  get_errno p = some (p.errno, p)

  abbrev pub set_errno : ℤ → Effect (Process S) (Unit {0})
  set_errno e p = some (tt, record p { errno = e })

  -- `errno = e; return a;`
  abbrev pub fail_with : {A : Type 0} → ℤ → A → Effect (Process S) A
  fail_with e a p = some (a, record p { errno = e })

abbrev pub minus_one : ℤ
minus_one = negsuc 0

abbrev pub is_zero : ℤ → Bool
is_zero (pos n) = n == 0
is_zero (negsuc n) = false

abbrev pub einval : ℤ
einval = pos 22

abbrev pub efault : ℤ
efault = pos 14

abbrev pub eacces : ℤ
eacces = pos 13

abbrev pub eaddrnotavail : ℤ
eaddrnotavail = pos 99
