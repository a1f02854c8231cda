-- ===== src/Systemd/Acquire.antt =====
-- Which descriptor a rule gets, and what becomes of the tables.
use ip2unix.Base.{List, Option, [], arith, false, if◌then◌else◌, none, refl, some, ℕ, ◌∷◌, ◌≡◌, ◌⊎◌}
use ip2unix.Base.Integer.{int_eq, int_eq_iff, ℤ}
use ip2unix.Base.Dict.{erase, find, has, has-remove}
use ip2unix.Effect.{Ensures}
use ip2unix.Kernel.{Kernel, Process, Tables}
use ip2unix.Systemd.{
  FdInfo, acquire_fdinfo_for_rulepos, acquire_found, acquire_from_pool, key_equal,
}

-- What `acquire_fdinfo_for_rulepos` did to the tables `old`, and to the descriptor `fd` among all
-- that systemd passed.
abbrev pub Acquired : ℕ → ℤ → Tables → Option FdInfo → Tables → Type 0
Acquired rulepos fd old none new =
    (find key_equal old.fdmap rulepos ≡ none) × (old.fds ≡ []) × (new ≡ old)
Acquired rulepos fd old (some info) new =
    (has int_eq new.all_fds fd ≡ (if int_eq info.0 fd then false else has int_eq old.all_fds fd))
    × (((find key_equal old.fdmap rulepos ≡ some info)
          × (new.fds ≡ old.fds)
          × (new.fdmap ≡ erase key_equal old.fdmap rulepos))
        ⊎ ((find key_equal old.fdmap rulepos ≡ none)
            × (old.fds ≡ info ∷ new.fds)
            × (new.fdmap ≡ old.fdmap)))

module _ {S : Type 0} (kernel : Kernel S) where
  pool-Acquired :
      (rulepos : ℕ) (fd : ℤ) (p : Process S) (fds : List FdInfo)
      → p.tables.fds ≡ fds
      → find key_equal p.tables.fdmap rulepos ≡ none
      → Ensures
          (λ (r : Option FdInfo) (q : Process S). Acquired rulepos fd p.tables r q.tables)
          (acquire_from_pool kernel fds p)
  unfolding acquire_from_pool
  pool-Acquired rulepos fd p [] e f = (f, e, refl)
  pool-Acquired rulepos fd p (info ∷ fds) e f =
      ground (arith, has-remove int_eq int_eq_iff p.tables.all_fds info.0 fd)

  found-Acquired :
      (rulepos : ℕ) (fd : ℤ) (p : Process S) (found : Option FdInfo)
      → find key_equal p.tables.fdmap rulepos ≡ found
      → Ensures
          (λ (r : Option FdInfo) (q : Process S). Acquired rulepos fd p.tables r q.tables)
          (acquire_found kernel rulepos p.tables.fds found p)
  unfolding acquire_found
  found-Acquired rulepos fd p none f = pool-Acquired rulepos fd p p.tables.fds refl f
  found-Acquired rulepos fd p (some info) f =
      ground (arith, has-remove int_eq int_eq_iff p.tables.all_fds info.0 fd)

  -- A rule gets the descriptor that was entered for its position, or else the one at the front of the
  -- pool, or none if the pool is empty. A descriptor that is handed out leaves the table it was in,
  -- and is no longer one of those that systemd passed, while the others still are.
  pub acquire_fdinfo_for_rulepos_lem :
      (rulepos : ℕ) (fd : ℤ) (p : Process S)
      → Ensures
          (λ (r : Option FdInfo) (q : Process S). Acquired rulepos fd p.tables r q.tables)
          (acquire_fdinfo_for_rulepos kernel rulepos p)
  unfolding acquire_fdinfo_for_rulepos
  acquire_fdinfo_for_rulepos_lem rulepos fd p =
      found-Acquired rulepos fd p (find key_equal p.tables.fdmap rulepos) refl
