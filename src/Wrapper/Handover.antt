-- ===== src/Wrapper/Handover.antt =====
-- The rules on their way from the command line to the preload library.
use mathlib.Core.Path.{subst}
use ip2unix.Base.{
  All, All-mono, Bool, List, Option, [], ap, arith, false, none, refl, some, true, ◌∷◌, ◌≡◌,
}
use ip2unix.Base.Text.{Bytes, codes}
use ip2unix.RuleParser.Result.{Environment, Result, ret, throws, ◌>>=◌}
use ip2unix.Kernel.{Kernel, Process}
use ip2unix.Rules.{Rule}
use ip2unix.Serial.Record.{serialise_rules}
use ip2unix.Serial.Record.RoundTrip.{InTypes, deserialise_rules-serialise_rules}
use ip2unix.RuleParser.Arg.{Parsed, parse_rule_arg, parsed, refused}
use ip2unix.RuleParser.Arg.Valid.{parse_rule_arg-IsValidRule}
use ip2unix.RuleParser.Validate.Sound.{IsValidRule}
use ip2unix.RuleParser.InTypes.{ErrnosFit, IsSoundRule}
use ip2unix.RuleParser.Arg.InTypes.{parse_rule_arg-InTypes}
use ip2unix.RuleParser.Yaml.{Answer, YamlError, complains, escapes, parse_rules, yields}
use ip2unix.RuleParser.Yaml.Sound.{Yields, parse_rules-Yields}
use ip2unix.Preload.{Loader, load_rules}
use ip2unix.Wrapper.{
  Host, Launch, Outcome, Settings, choose_rules, launches, parse_args, run, run_preload,
  start_program, to_optional, yaml_rules,
}

module _ (env : Environment) (host : Host) where
  -- What is true of every rule, where the rules were read.
  abbrev Reads : (Rule → Type 0) → Result (Option (List Rule)) → Type 0
  Reads P (ret (some rules)) = All P rules
  Reads P _ = Unit

  parse_args-Reads :
      (P : Rule → Type 0)
      → ((arg : Bytes) (rule : Rule) → parse_rule_arg env arg ≡ ret (parsed rule) → P rule)
      → (args : List Bytes) → Reads P (parse_args env host args)
  unfolding parse_args
  parse_args-Reads P one [] = tt
  parse_args-Reads P one (arg ∷ args) =
      first (parse_rule_arg env arg) refl (parse_args env host args) (parse_args-Reads P one args)
    where
      next :
          (r : Rule) (rest : Result (Option (List Rule)))
          → P r
          → Reads P rest
          → Reads P (rest >>= λ rules. ret (elim rules [ none ↦ none | some rs ↦ some (r ∷ rs) ]))
      next r (ret (some rules)) v h = (v, h)
      next r (ret none) v h = tt
      next r throws v h = tt

      first :
          (result : Result Parsed)
          → parse_rule_arg env arg ≡ result
          → (rest : Result (Option (List Rule))) → Reads P rest
          → Reads P (
              result >>= λ found. elim found as (λ _. Result (Option (List Rule))) [
                | refused e ↦ ret none
                | parsed r ↦
                    rest >>= λ rules. ret (elim rules [ none ↦ none | some rs ↦ some (r ∷ rs) ])
              ])
      first throws e rest h = tt
      first (ret (refused x)) e rest h = tt
      first (ret (parsed r)) e rest h = next r rest (one arg r e) h

  -- The rules that the command line gives one by one are valid.
  pub parse_args-IsValidRule :
      (args : List Bytes) (rules : List Rule)
      → parse_args env host args ≡ ret (some rules)
      → All (IsValidRule env) rules
  parse_args-IsValidRule args rules e =
      subst (Reads (IsValidRule env)) e
        (parse_args-Reads (IsValidRule env) (λ arg rule. parse_rule_arg-IsValidRule env arg) args)

  module _ (fit : ErrnosFit env) where
    parse_args-IsSoundRule :
        (args : List Bytes) → Reads (IsSoundRule env) (parse_args env host args)
    parse_args-IsSoundRule args =
        parse_args-Reads (IsSoundRule env)
          (λ arg rule e.
            (parse_rule_arg-IsValidRule env arg e, parse_rule_arg-InTypes env fit arg e))
          args

    yaml_rules-IsSoundRule :
        (content : Bytes) (content_is_filename : Bool)
        → Reads (IsSoundRule env) (yaml_rules env host content content_is_filename)
    unfolding yaml_rules
    yaml_rules-IsSoundRule content content_is_filename =
        optional (parse_rules host.yaml env host.load_file host.load content content_is_filename) (
          parse_rules-Yields host.yaml env fit host.load_file host.load content content_is_filename)
      where
        optional :
            (m : Answer YamlError (List Rule))
            → Yields (All (IsSoundRule env)) m
            → Reads (IsSoundRule env) (to_optional m)
        optional (yields rules) h = h
        optional (complains e) h = tt
        optional escapes h = tt

    choose_rules-Reads : (s : Settings) → Reads (IsSoundRule env) (choose_rules env host s)
    unfolding choose_rules
    choose_rules-Reads s = chosen s.rule_args s.rulefile s.ruledata
      where
        chosen :
            (args : List Bytes) (rulefile ruledata : Option Bytes)
            → Reads (IsSoundRule env) (
                choose_rules env host
                  (record s { rule_args = args; rulefile = rulefile; ruledata = ruledata }))
        chosen (arg ∷ args) none none = parse_args-IsSoundRule (arg ∷ args)
        chosen (arg ∷ args) (some filename) ruledata = tt
        chosen (arg ∷ args) none (some content) = tt
        chosen [] (some filename) none = yaml_rules-IsSoundRule filename true
        chosen [] (some filename) (some content) = tt
        chosen [] none (some content) = yaml_rules-IsSoundRule content false
        chosen [] none none = tt

    -- The rules that the wrapper takes, from options, from files of rules or from YAML, are valid,
    -- and their numbers fit their fields.
    pub choose_rules-IsSoundRule :
        (s : Settings) (rules : List Rule)
        → choose_rules env host s ≡ ret (some rules)
        → All (IsSoundRule env) rules
    choose_rules-IsSoundRule s rules e = subst (Reads (IsSoundRule env)) e (choose_rules-Reads s)

  -- What the environment of a launched program has the rules as.
  abbrev launched : Result Outcome → Option Bytes
  launched (ret (launches l)) = some l.rules_text
  launched _ = none

  run-Launches :
      (s : Settings) (argv : List Bytes) (rules : List Rule) (l : Launch)
      → choose_rules env host s ≡ ret (some rules)
      → run env host s argv ≡ ret (launches l)
      → l.rules_text ≡ serialise_rules rules
  unfolding run start_program run_preload
  run-Launches s argv rules l e r = ground (arith, ap launched r)

  module _ {S : Type 0} (kernel : Kernel S) (loader : Loader S) where
    -- A program that the wrapper runs finds in its environment the rules that the command line names,
    -- field by field and in their order, if the table of error names has values of an `int`.
    pub run-load_rules :
        ErrnosFit env
        → (s : Settings) (argv : List Bytes) (rules : List Rule) (l : Launch) (p : Process S)
        → choose_rules env host s ≡ ret (some rules)
        → run env host s argv ≡ ret (launches l)
        → kernel.getenv (codes "__IP2UNIX_RULES") p.os ≡ some l.rules_text
        → load_rules kernel loader p ≡ some (rules, p)
    unfolding load_rules
    run-load_rules fit s argv rules l p e r g =
        let t =
          All-mono (IsSoundRule env) InTypes (λ rule h. h.1) rules
            (choose_rules-IsSoundRule fit s rules e) in
        rw (g, run-Launches s argv rules l e r, deserialise_rules-serialise_rules rules t) refl
