-- ===== src/Wrapper/Verbosity.antt =====
-- The option `-v` on its way from the command line to the messages of the library.
use ip2unix.RuleParser.Result.{Environment, Result, ret}
use ip2unix.Base.{if◌then◌else◌, ltb, some, ℕ, ◌≡◌}
use ip2unix.Base.Decimal.{decimal}
use ip2unix.Kernel.{Kernel}
use ip2unix.Wrapper.{Host, Outcome, launches}

module _ (env : Environment) (host : Host) where
  -- What a launched program has as its verbosity.
  abbrev Passes : ℕ → Result Outcome → Type 0
  Passes n (ret (launches l)) =
      l.verbosity_text ≡ (if ltb 0 n then some (decimal n) else host.verbosity_text)
  Passes n _ = Unit
