-- ===== src/BlackHole.antt =====
-- src/blackhole.cc and src/blackhole.hh: a socket path in a directory of its own, which is removed
-- with the object.
use ip2unix.Base.{Bool, List, Option, [], false, if◌then◌else◌, none, some, ◌++◌, ◌∷◌}
use ip2unix.Base.Text.{Bytes, codes}
use ip2unix.Base.Integer.{int_eq, ℤ}
use ip2unix.Effect.{Effect, fault, gets, modify, pure, ◌>>=◌, ◌>>◌}
use ip2unix.Kernel.{Kernel, Process, call, fail_with, get_errno, minus_one, set_errno}

pub record BlackHole : Type 0 where
  pub tmpdir : Option Bytes
  pub filepath : Option Bytes

module _ {S : Type 0} (kernel : Kernel S) where
  -- The checks behind `realpath`, with the value of `errno` before it.
  unfoldable pub check_resolved : ℤ → Option Bytes → Effect (Process S) Bool
  check_resolved old_errno none = fail_with old_errno false
  check_resolved old_errno (some resolved) = do
    accessible ← call (kernel.access_writable resolved)
    if int_eq accessible minus_one then fail_with old_errno false else do
      st ← call (kernel.stat_is_dir resolved)
      elim st [ none ↦ fail_with old_errno false | some is_dir ↦ pure is_dir ]

  unfoldable pub is_writable_dir : Bytes → Effect (Process S) Bool
  unfolding check_resolved
  is_writable_dir dir = do
    old_errno ← get_errno
    resolved ← call (kernel.realpath dir)
    check_resolved old_errno resolved

  -- The working directory is tested after `free`, so nothing is known of what that test reads.
  unfoldable pub try_workdir : Effect (Process S) Bytes
  try_workdir = do
    workdir ← call kernel.current_dir
    elim workdir [ none ↦ fault | some dir ↦ fault ]

  unfoldable pub try_dirs : List Bytes → Effect (Process S) Bytes
  unfolding is_writable_dir try_workdir
  try_dirs [] = try_workdir
  try_dirs (dir ∷ dirs) = do
    writable ← is_writable_dir dir
    if writable then pure dir else try_dirs dirs

  -- The loop over the variables; a variable that is not set is passed over.
  unfoldable pub set_dirs : S → List Bytes → List Bytes
  set_dirs os [] = []
  set_dirs os (tryenv ∷ names) = elim (kernel.getenv tryenv os) [
    | none ↦ set_dirs os names
    | some dir ↦ dir ∷ set_dirs os names
  ]

  unfoldable pub get_tmpdir : Effect (Process S) Bytes
  unfolding set_dirs try_dirs
  get_tmpdir = do
    names ←
        gets λ p. set_dirs p.os (codes "TMPDIR" ∷ codes "TMP" ∷ codes "TEMP" ∷ codes "TEMPDIR" ∷ [])
    try_dirs (names ++ codes "/tmp" ∷ codes "/var/tmp" ∷ [])

  -- `static std::string tempdir = get_tmpdir()`.
  unfoldable pub static_tempdir : Effect (Process S) Bytes
  unfolding get_tmpdir
  static_tempdir p = elim p.tempdir [
    | none ↦
        (do dir ← get_tmpdir; modify (λ (q : Process S). record q { tempdir = some dir }); pure dir)
          p
    | some dir ↦ some (dir, p)
  ]

  abbrev black_hole_of : Option Bytes → BlackHole
  black_hole_of none = record { tmpdir = none; filepath = none }
  black_hole_of (some dir) = record {
    tmpdir = some dir;
    filepath = some (dir ++ codes "/blackhole.sock");
  }

  -- `BlackHole()`.
  unfoldable pub create : Effect (Process S) BlackHole
  unfolding static_tempdir
  create = do
    tempdir ← static_tempdir
    c_tmpdir ← call (kernel.mkdtemp (tempdir ++ codes "/ip2unix.XXXXXX"))
    pure (black_hole_of c_tmpdir)

  unfoldable pub remove_files : Option Bytes → Option Bytes → Effect (Process S) (Unit {0})
  remove_files (some filepath) (some tmpdir) = do
    old_errno ← get_errno
    unlinked ← call (kernel.unlink filepath)
    removed ← call (kernel.rmdir tmpdir)
    set_errno old_errno
  remove_files _ _ = pure tt

  -- `~BlackHole()`.
  unfoldable pub destroy : BlackHole → Effect (Process S) (Unit {0})
  unfolding remove_files
  destroy bh = remove_files bh.filepath bh.tmpdir
