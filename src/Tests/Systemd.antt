-- ===== src/Tests/Systemd.antt =====
-- The descriptors of systemd.
use ip2unix.Base.{Option, [], arith, false, if◌then◌else◌, none, refl, some, true, ℕ, ◌∷◌, ◌≡◌}
use ip2unix.Base.Text.{Bytes, bytes_eq, codes}
use ip2unix.Base.Integer.{pos}
use ip2unix.Effect.{Ensures}
use ip2unix.Rules.{Rule, default_rule}
use ip2unix.Kernel.{Process, Tables}
use ip2unix.Serial.Stream.{ok}
use ip2unix.Systemd.{FdInfo, acquire_fdinfo_for_rulepos, serialise_fdmap, serialise_fds}
use ip2unix.Systemd.Init.{init, read_fdmap, read_fds}
use ip2unix.Systemd.RoundTrip.{tables_round_trip}
use ip2unix.Systemd.Acquire.{Acquired, acquire_fdinfo_for_rulepos_lem}
use ip2unix.Tests.Kernels.{kernel, process, tables}

tables_round_trip_example :
    (read_fds [] (serialise_fds tables.fds) ≡ ok tables.fds [])
    × (read_fdmap [] (serialise_fdmap tables.fdmap) ≡ ok tables.fdmap [])
tables_round_trip_example =
    tables_round_trip tables.fds tables.fdmap (omega arith) (omega arith) (tt, tt)

acquire_fdinfo_for_rulepos_lem_example :
    Ensures
      (λ (r : Option FdInfo) (q : Process ℕ). Acquired 0 (pos 4) tables r q.tables)
      (acquire_fdinfo_for_rulepos kernel 0 process)
acquire_fdinfo_for_rulepos_lem_example = acquire_fdinfo_for_rulepos_lem kernel 0 (pos 4) process

-- Three descriptors, the second of which has the name of the second rule.
abbrev os_with : Bytes → ℕ → Option Bytes
os_with name os =
    if bytes_eq name (codes "LISTEN_FDS")
    then some (codes "3")
    else if bytes_eq name (codes "LISTEN_FDNAMES")
    then some (codes "a:b:c")
    else none

abbrev named_rule : Rule
named_rule = record default_rule { socket_activation = true; fd_name = some (codes "b") }

abbrev tables_after : Option (Unit {0} × Process ℕ) → Tables
tables_after none = tables
tables_after (some (u, p)) = p.tables

abbrev no_tables : Tables
no_tables = record { fdmap = []; fds = []; all_fds = []; fetch_done = false }

names_are_matched :
    tables_after (
      init
        (record kernel { getenv = os_with })
        (default_rule ∷ named_rule ∷ [])
        (record process { tables = no_tables }))
    ≡ record {
      fdmap = (1, (pos 4, false)) ∷ [];
      fds = (pos 3, false) ∷ (pos 5, false) ∷ [];
      all_fds = pos 5 ∷ pos 4 ∷ pos 3 ∷ [];
      fetch_done = true;
    }
unfolding init
names_are_matched = refl
