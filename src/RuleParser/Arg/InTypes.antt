-- ===== src/RuleParser/Arg/InTypes.antt =====
-- The fields of a rule that `parse_rule_arg` returns hold values of their types.
use mathlib.Core.Path.{subst}
use ip2unix.Base.{
  Bool, Option, [], arith, drop, false, if◌then◌else◌, none, some, suc, take, true, zero, ℕ, ◌&&◌,
  ◌+◌, ◌-◌, ◌==◌, ◌∷◌, ◌≡◌,
}
use ip2unix.Base.Text.{Bytes}
use ip2unix.Rules.{Rule}
use ip2unix.Serial.Record.RoundTrip.{InTypes}
use ip2unix.RuleParser.Result.{Environment, Result, ret, throws, ◌>>=◌}
use ip2unix.RuleParser.Port.{string2port}
use ip2unix.RuleParser.InTypes.{
  ErrnosFit, IsUint16, ReadsAs, parse_errno-InInt32, string2port-IsUint16,
}
use ip2unix.RuleParser.Arg.{
  ArgState, Parsed, Update, end_item, find_dash, finish_item, finish_rule, initial,
  invalid_end_port, is_escaped, is_value, keep, next_item, parse_rule_arg, parsed, plain_step, push,
  refuse, scan, set_errno, set_flag, set_option, set_port, set_start,
}

module _ (env : Environment) (fit : ErrnosFit env) where
  -- The rule of an update, if there is one.
  abbrev Updates : Result Update → Type 0
  Updates (ret (keep rule)) = InTypes rule
  Updates _ = Unit

  abbrev Parses : Result Parsed → Type 0
  Parses (ret (parsed rule)) = InTypes rule
  Parses _ = Unit

  set_start-Updates :
      (rule : Rule) (valpos whole : ℕ) (portbuf : Bytes)
      → InTypes rule
      → Updates (set_start rule valpos whole portbuf)
  unfolding set_start
  set_start-Updates rule valpos whole portbuf t = ground (arith, string2port-IsUint16 portbuf)

  set_port-Updates :
      (rule : Rule) (valpos whole : ℕ) (buf : Bytes) (dash : Option ℕ)
      → InTypes rule
      → Updates (set_port rule valpos whole buf dash)
  unfolding set_port
  set_port-Updates rule valpos whole buf none t = set_start-Updates rule valpos whole buf t
  set_port-Updates rule valpos whole buf (some zero) t = set_start-Updates rule valpos whole buf t
  set_port-Updates rule valpos whole buf (some (suc n)) t =
      ranged (string2port (drop (suc n + 1) buf)) (string2port-IsUint16 (drop (suc n + 1) buf))
    where
      ranged :
          (r : Result (Option ℕ))
          → ReadsAs IsUint16 r
          → Updates (
              r >>= λ found. elim found [
                | none ↦ ret (refuse (invalid_end_port (valpos + suc n + 1) (whole - suc n - 1)))
                | some port_end ↦
                    set_start
                      (record rule { port_end = some port_end })
                      valpos
                      whole
                      (take (suc n) buf)
              ])
      ranged throws p = tt
      ranged (ret none) p = tt
      ranged (ret (some port_end)) p =
          set_start-Updates (record rule { port_end = some port_end }) valpos whole
            (take (suc n) buf)
            (record { port_range = t.port_range; port_end_range = p; errno_range = t.errno_range })

  set_errno-Updates :
      (rule : Rule) (valpos whole : ℕ) (buf : Bytes)
      → InTypes rule
      → Updates (set_errno env rule valpos whole buf)
  unfolding set_errno
  set_errno-Updates rule valpos whole buf t = ground (arith, parse_errno-InInt32 env fit buf)

  set_option-Updates :
      (s : ArgState) (key : Bytes) → InTypes s.rule → Updates (set_option env s key)
  unfolding set_option
  set_option-Updates s key t = ground (
    arith,
    set_errno-Updates s.rule s.valpos (s.index - s.valpos) s.buf,
    set_port-Updates s.rule s.valpos (s.index - s.valpos) s.buf (find_dash s.buf),
  )

  set_flag-Updates : (s : ArgState) → InTypes s.rule → Updates (ret (set_flag s))
  unfolding set_flag
  set_flag-Updates s t = ground arith

  finish_item-Updates :
      (s : ArgState) (key : Option Bytes) → InTypes s.rule → Updates (finish_item env s key)
  unfolding finish_item
  finish_item-Updates s none t = set_flag-Updates s t
  finish_item-Updates s (some key) t = set_option-Updates s key t

  finish_rule-Parses : (rule : Rule) → InTypes rule → Parses (ret (finish_rule env rule))
  unfolding finish_rule
  finish_rule-Parses rule t = ground arith

  end_item-Parses :
      (u : Result Update) (k : Rule → Result Parsed)
      → Updates u
      → ((rule : Rule) → InTypes rule → Parses (k rule))
      → Parses (end_item u k)
  end_item-Parses (ret (keep rule)) k t h = h rule t
  end_item-Parses (ret (refuse e)) k t h = tt
  end_item-Parses throws k t h = tt

  if-Parses : (b : Bool) (x y : Result Parsed) → Parses x → Parses y → Parses (if b then x else y)
  if-Parses true x y hx hy = hx
  if-Parses false x y hx hy = hy

  plain_step-InTypes : (s : ArgState) (c : ℕ) → InTypes s.rule → InTypes ((plain_step s c).rule)
  plain_step-InTypes s c t = ground arith

  scan-Parses : (arg : Bytes) (s : ArgState) → InTypes s.rule → Parses (scan env s arg)
  unfolding scan
  scan-Parses [] s t =
      end_item-Parses (finish_item env s s.key) _ (finish_item-Updates s s.key t) finish_rule-Parses
  scan-Parses (c ∷ []) s t =
      if-Parses (c == b',') _ _
        (end_item-Parses (finish_item env s s.key) _ (finish_item-Updates s s.key t)
          λ rule u. scan-Parses [] (next_item s rule) u)
        (scan-Parses [] (plain_step s c) (plain_step-InTypes s c t))
  scan-Parses (c ∷ d ∷ arg) s t =
      if-Parses (c == b',') _ _
        (end_item-Parses (finish_item env s s.key) _ (finish_item-Updates s s.key t)
          λ rule u. scan-Parses (d ∷ arg) (next_item s rule) u)
        (if-Parses (is_value s.key && is_escaped c d) _ _ (scan-Parses arg (push s d 2) t)
          (scan-Parses (d ∷ arg) (plain_step s c) (plain_step-InTypes s c t)))

  -- The numbers of a rule that the command line parser returns fit their fields.
  pub parse_rule_arg-InTypes :
      (arg : Bytes) {rule : Rule} → parse_rule_arg env arg ≡ ret (parsed rule) → InTypes rule
  unfolding parse_rule_arg
  parse_rule_arg-InTypes arg {rule} e =
      subst Parses e (
        scan-Parses arg initial (record { port_range = tt; port_end_range = tt; errno_range = tt }))
