-- ===== src/Systemd.antt =====
-- src/systemd.cc and src/systemd.hh: the socket descriptors that systemd passed.
pub mod Init
pub mod RoundTrip
pub mod Acquire
use ip2unix.Base.{
  Bool, List, Option, [], if◌then◌else◌, none, some, true, ℕ, ◌%◌, ◌+◌, ◌-◌, ◌==◌, ◌∷◌,
}
use ip2unix.Base.Text.{Bytes, codes}
use ip2unix.Base.Integer.{int_eq, negsuc, pos, ℤ}
use ip2unix.Base.Dict.{erase, find, has, remove}
use ip2unix.Effect.{Effect, fault, pure, ◌>>=◌, ◌>>◌}
use ip2unix.SockOpts.{fd_flags}
use ip2unix.Kernel.{Kernel, Process, Tables, call, draw, get_errno, minus_one, set_errno}
use ip2unix.Serial.Container.{serialise_map, serialise_pair, serialise_sequence}
use ip2unix.Serial.Scalar.{serialise_bool, serialise_int, serialise_unsigned}

abbrev pub FdInfo : Type 0
FdInfo = ℤ × Bool

abbrev pub key_equal : ℕ → ℕ → Bool
key_equal a b = a == b

abbrev pub fds_name : Bytes
fds_name = codes "__IP2UNIX_SYSTEMD_FDS"

abbrev pub fdmap_name : Bytes
fdmap_name = codes "__IP2UNIX_SYSTEMD_FDMAP"

unfoldable pub serialise_fds : List FdInfo → Bytes
unfolding serialise_sequence serialise_pair serialise_int serialise_bool
serialise_fds = serialise_sequence (serialise_pair serialise_int serialise_bool)

unfoldable pub serialise_fdmap : List (ℕ × FdInfo) → Bytes
unfolding serialise_map serialise_pair serialise_unsigned serialise_int serialise_bool
serialise_fdmap = serialise_map serialise_unsigned (serialise_pair serialise_int serialise_bool)

-- `old_flags | FD_CLOEXEC`: the lowest bit of an `int`.
unfoldable pub with_cloexec : ℤ → ℤ
with_cloexec (pos n) = if n % 2 == 0 then pos (n + 1) else pos n
with_cloexec (negsuc n) = if n % 2 == 0 then negsuc n else negsuc (n - 1)

module _ {S : Type 0} (kernel : Kernel S) where
  abbrev pub get_tables : Effect (Process S) Tables
  get_tables p = some (p.tables, p)

  abbrev pub on_tables : (Tables → Tables) → Effect (Process S) (Unit {0})
  on_tables f p = some (tt, record p { tables = f p.tables })

  -- `setenv`, or an abort.
  abbrev set_or_abort : Bytes → Bytes → Effect (Process S) (Unit {0})
  set_or_abort name value = do
    ret ← call (kernel.setenv name value)
    if int_eq ret minus_one then fault else pure tt

  unfoldable pub update_env : Effect (Process S) (Unit {0})
  unfolding serialise_fds serialise_fdmap int_eq
  update_env = do
    tables ← get_tables
    set_or_abort fds_name (serialise_fds tables.fds)
    set_or_abort fdmap_name (serialise_fdmap tables.fdmap)

  unfoldable pub set_cloexec : ℤ → Effect (Process S) (Unit {0})
  unfolding with_cloexec int_eq
  set_cloexec fd = do
    old_errno ← get_errno
    flags ← draw (kernel.get_setting fd_flags fd)
    let old_flags : ℤ = elim flags [ none ↦ pos 0 | some n ↦ n ]
    set ←
        if int_eq old_flags (with_cloexec old_flags)
        then pure true
        else draw (kernel.set_setting fd_flags fd (with_cloexec old_flags))
    set_errno old_errno

  unfoldable pub remove_fd : ℤ → Effect (Process S) (Unit {0})
  unfolding update_env set_cloexec remove int_eq
  remove_fd fd = do
    on_tables λ (t : Tables). record t { all_fds = remove int_eq t.all_fds fd }
    update_env
    set_cloexec fd

  -- The descriptor at the front of the pool.
  unfoldable pub acquire_from_pool : List FdInfo → Effect (Process S) (Option FdInfo)
  unfolding remove_fd
  acquire_from_pool [] = pure none
  acquire_from_pool (fd ∷ fds) = do
    on_tables λ (t : Tables). record t { fds = fds }
    remove_fd fd.0
    pure (some fd)

  -- From what the table by rules has for the position.
  unfoldable pub acquire_found :
      ℕ → List FdInfo → Option FdInfo → Effect (Process S) (Option FdInfo)
  unfolding acquire_from_pool remove_fd erase
  acquire_found rulepos fds none = acquire_from_pool fds
  acquire_found rulepos fds (some fdinfo) = do
    on_tables λ (t : Tables). record t { fdmap = erase key_equal t.fdmap rulepos }
    remove_fd fdinfo.0
    pure (some fdinfo)

  unfoldable pub acquire_fdinfo_for_rulepos : ℕ → Effect (Process S) (Option FdInfo)
  unfolding acquire_found find
  acquire_fdinfo_for_rulepos rulepos = do
    tables ← get_tables
    acquire_found rulepos tables.fds (find key_equal tables.fdmap rulepos)

  unfoldable pub has_fd : ℤ → Effect (Process S) Bool
  unfolding has int_eq
  has_fd fd = do tables ← get_tables; pure (has int_eq tables.all_fds fd)
