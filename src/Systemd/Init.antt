-- ===== src/Systemd/Init.antt =====
-- `Systemd::init`: the descriptors, from systemd's environment variables or from our own.
use ip2unix.Base.{
  Bool, List, Option, [], false, if◌then◌else◌, ltb, none, not, some, suc, true, zero, ℕ, ◌%◌, ◌+◌,
  ◌-◌, ◌==◌, ◌^◌, ◌||◌, ◌∷◌,
}
use ip2unix.Base.Text.{Bytes, bytes_eq, codes}
use ip2unix.Base.Integer.{int_eq, negsuc, pos, ℤ}
use ip2unix.Base.Decimal.{read_digits, starts_with_digit}
use ip2unix.Base.Dict.{has, put, remove}
use ip2unix.Rules.{Rule}
use ip2unix.Effect.{Effect, fault, gets, pure, ◌>>=◌, ◌>>◌}
use ip2unix.Kernel.{Kernel, Process, Tables, call, get_errno, minus_one, set_errno}
use ip2unix.Serial.Stream.{Parse, err, hang, ok}
use ip2unix.Serial.Container.{deserialise_map, deserialise_pair, deserialise_sequence}
use ip2unix.Serial.Scalar.{deserialise_bool, deserialise_int, deserialise_unsigned}
use ip2unix.Systemd.{FdInfo, fdmap_name, fds_name, get_tables, key_equal, on_tables, update_env}

-- What stands in front of the first colon, and what stands behind each.
unfoldable pub split_colons : Bytes → Bytes × List Bytes
split_colons [] = ([], [])
split_colons (c ∷ s) =
    let (elem, elems) = split_colons s in
    if c == b':' then ([], elem ∷ elems) else (c ∷ elem, elems)

-- `get_env_vector`; the argument is what `getenv` returns.
unfoldable pub env_vector : Option Bytes → List Bytes
unfolding split_colons
env_vector none = []
env_vector (some []) = []
env_vector (some (c ∷ s)) = let (elem, elems) = split_colons (c ∷ s) in elem ∷ elems

-- `strtoul` of a text that begins with a digit: too large a number is ULONG_MAX.
unfoldable pub strtoul : Bytes → ℕ
unfolding read_digits
strtoul s = let n = (read_digits 0 s).0 in if ltb n (2 ^ 64) then n else 2 ^ 64 - 1

-- `int fd = SD_LISTEN_FDS_START + i`, with `n` for the sum.
unfoldable pub to_int : ℕ → ℤ
to_int n = let m = n % 2 ^ 32 in if ltb m (2 ^ 31) then pos m else negsuc (2 ^ 32 - 1 - m)

-- `count` descriptors from `n` on, each put into the set.
unfoldable pub insert_fds : ℕ → ℕ → List ℤ → List ℤ
unfolding to_int has int_eq
insert_fds zero n set = set
insert_fds (suc count) n set =
    insert_fds count (n + 1) (if has int_eq set (to_int n) then set else to_int n ∷ set)

unfoldable pub insert_all : List FdInfo → List ℤ → List ℤ
unfolding has int_eq
insert_all [] set = set
insert_all (info ∷ infos) set =
    insert_all infos (if has int_eq set info.0 then set else info.0 ∷ set)

unfoldable pub second_parts : List (ℕ × FdInfo) → List FdInfo
second_parts [] = []
second_parts ((rulepos, info) ∷ fdmap) = info ∷ second_parts fdmap

unfoldable pub read_fds : List FdInfo → Bytes → Parse (List FdInfo)
unfolding deserialise_sequence deserialise_pair deserialise_int deserialise_bool
read_fds = deserialise_sequence (deserialise_pair deserialise_int deserialise_bool)

unfoldable pub read_fdmap : List (ℕ × FdInfo) → Bytes → Parse (List (ℕ × FdInfo))
unfolding deserialise_map deserialise_unsigned deserialise_pair deserialise_int deserialise_bool
read_fdmap =
    deserialise_map key_equal (deserialise_unsigned 64)
      (deserialise_pair deserialise_int deserialise_bool)

-- Any error is an abort.
abbrev pub parsed_or_abort : {W A : Type 0} → Parse A → Effect W A
parsed_or_abort (ok a rest) w = some (a, w)
parsed_or_abort (err e) w = none
parsed_or_abort hang w = none

module _ {S : Type 0} (kernel : Kernel S) where
  unfoldable pub load_tables : Bytes → Bytes → Effect (Process S) (Unit {0})
  unfolding read_fds read_fdmap insert_all second_parts
  load_tables fds_raw fdmap_raw = do
    tables ← get_tables kernel
    fds ← parsed_or_abort (read_fds tables.fds fds_raw)
    fdmap ← parsed_or_abort (read_fdmap tables.fdmap fdmap_raw)
    on_tables kernel λ (t : Tables). record t {
      fds = fds;
      fdmap = fdmap;
      all_fds = insert_all fds (insert_all (second_parts fdmap) t.all_fds);
    }

  unfoldable pub init_from_env : Effect (Process S) Bool
  unfolding load_tables
  init_from_env = do
    fds_raw ← gets λ (p : Process S). kernel.getenv fds_name p.os
    fdmap_raw ← gets λ (p : Process S). kernel.getenv fdmap_name p.os
    elim fds_raw [
      | none ↦ pure false
      | some fds ↦ elim fdmap_raw [
        | none ↦ pure false
        | some fdmap ↦ do load_tables fds fdmap; pure true
      ]
    ]

  unfoldable pub socket_is_inet : ℤ → Effect (Process S) Bool
  unfolding int_eq
  socket_is_inet fd = do
    old_errno ← get_errno
    sotype ← call (kernel.socket_domain fd)
    set_errno old_errno
    pure (elim sotype [ none ↦ true | some n ↦ int_eq n (pos 2) || int_eq n (pos 10) ])

  -- The loop over the names for one rule, from the descriptor `n` on; the result is what is left of
  -- the available descriptors.
  unfoldable pub match_names : ℕ → Bytes → ℕ → ℕ → List Bytes → List ℤ → Effect (Process S) (List ℤ)
  unfolding socket_is_inet bytes_eq put remove to_int int_eq
  match_names rulepos fd_name zero n names avail_fds = pure avail_fds
  match_names rulepos fd_name (suc elems) n [] avail_fds = pure avail_fds
  match_names rulepos fd_name (suc elems) n (name ∷ names) avail_fds = do
    left ←
        if bytes_eq name fd_name
        then (do
          is_inet ← socket_is_inet (to_int n)
          on_tables kernel
              λ (t : Tables). record t { fdmap = put key_equal t.fdmap rulepos (to_int n, is_inet) }
          pure (remove int_eq avail_fds (to_int n)))
        else pure avail_fds
    match_names rulepos fd_name elems (n + 1) names left

  unfoldable pub names_of_rule : Rule → Option Bytes
  names_of_rule rule = if rule.socket_activation then rule.fd_name else none

  -- The loop over the rules.
  unfoldable pub match_rules : ℕ → ℕ → List Bytes → List Rule → List ℤ → Effect (Process S) (List ℤ)
  unfolding match_names names_of_rule
  match_rules fd_count rulepos names [] avail_fds = pure avail_fds
  match_rules fd_count rulepos names (rule ∷ rules) avail_fds = do
    left ← elim (names_of_rule rule) [
      | none ↦ pure avail_fds
      | some fd_name ↦ match_names rulepos fd_name fd_count 3 names avail_fds
    ]
    match_rules fd_count (rulepos + 1) names rules left

  -- The descriptors that are left go to the front of the pool.
  unfoldable pub pool_fds : List ℤ → Effect (Process S) (Unit {0})
  unfolding socket_is_inet
  pool_fds [] = pure tt
  pool_fds (fd ∷ avail_fds) = do
    is_inet ← socket_is_inet fd
    on_tables kernel λ (t : Tables). record t { fds = (fd, is_inet) ∷ t.fds }
    pool_fds avail_fds

  abbrev unset_or_abort : Bytes → Effect (Process S) (Unit {0})
  unset_or_abort name = do
    ret ← call (kernel.unsetenv name)
    if int_eq ret minus_one then fault else pure tt

  unfoldable pub fetch_fds : List Rule → ℕ → Effect (Process S) (Unit {0})
  unfolding env_vector insert_fds match_rules pool_fds update_env int_eq
  fetch_fds rules fd_count = do
    names ← gets λ (p : Process S). env_vector (kernel.getenv (codes "LISTEN_FDNAMES") p.os)
    on_tables kernel λ (t : Tables). record t { all_fds = insert_fds fd_count 3 t.all_fds }
    left ← match_rules fd_count 0 names rules (insert_fds fd_count 3 [])
    pool_fds left
    update_env kernel
    unset_or_abort (codes "LISTEN_FDNAMES")
    unset_or_abort (codes "LISTEN_FDS")

  -- LISTEN_FDS has to begin with a digit, and with a number other than 0.
  unfoldable pub fetch_counted : List Rule → Option Bytes → Effect (Process S) (Unit {0})
  unfolding strtoul fetch_fds
  fetch_counted rules none = fault
  fetch_counted rules (some listen_fds) =
      if not (starts_with_digit listen_fds) || strtoul listen_fds == 0
      then fault
      else fetch_fds rules (strtoul listen_fds)

  unfoldable pub init : List Rule → Effect (Process S) (Unit {0})
  unfolding init_from_env fetch_counted
  init rules = do
    tables ← get_tables kernel
    if tables.fetch_done then pure tt else do
      loaded ← init_from_env
      listen_fds ← gets λ (p : Process S). kernel.getenv (codes "LISTEN_FDS") p.os
      if loaded then pure tt else fetch_counted rules listen_fds
      on_tables kernel λ (t : Tables). record t { fetch_done = true }
