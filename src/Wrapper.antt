-- ===== src/Wrapper.antt =====
-- src/ip2unix.cc: the wrapper program, from the options that `getopt_long` returns to the environment
-- that it runs the program in. What it writes on the terminal is left out.
pub mod Handover
pub mod RuleFile
pub mod Verbosity
use ip2unix.Base.{
  Bool, List, Option, [], false, if◌then◌else◌, ltb, none, not, some, true, ℕ, ◌%◌, ◌&&◌, ◌++◌, ◌+◌,
  ◌==◌, ◌^◌, ◌∷◌,
}
use ip2unix.Base.Text.{Bytes}
use ip2unix.Base.Decimal.{decimal}
use ip2unix.Rules.{Rule}
use ip2unix.Serial.Scalar.{skip_space}
use ip2unix.Serial.Record.{serialise_rules}
use ip2unix.RuleParser.Result.{Environment, Result, ret, throws, ◌>>=◌}
use ip2unix.RuleParser.Arg.{parse_rule_arg, parsed, refused}
use ip2unix.RuleParser.Yaml.{
  Answer, Loaded, Yaml, complains, escapes, is_yaml_rule_file, parse_rules, yields,
}
use ip2unix.RuleParser.Print.{print_rules}

-- What `getopt_long` returns, with `optarg`.
pub data Opt : Type 0 where
  help version check print verbose unknown : Opt
  rule_arg file rules_file rules_data : Bytes → Opt

-- An open `std::ifstream`: what it reads, and whether it is `bad()` at the end.
pub record Input : Type 0 where
  pub text : Bytes
  pub is_bad : Bool

-- The files, yaml-cpp, the preload library and the environment that the wrapper finds, of which
-- `verbosity_text` is `__IP2UNIX_VERBOSITY`.
pub record Host : Type 1 where
  pub yaml : Yaml
  pub load_file : Bytes → Loaded (yaml.Node)
  pub load : Bytes → Loaded (yaml.Node)
  pub open_file : Bytes → Option Input
  pub libpath : Option Bytes
  pub same_version : Bool
  pub ld_preload : Option Bytes
  pub verbosity_text : Option Bytes

-- The local variables of `main`.
pub record Settings : Type 0 where
  pub check_only : Bool
  pub show_rules : Bool
  pub verbosity : ℕ
  pub rulefile : Option Bytes
  pub ruledata : Option Bytes
  pub rule_args : List Bytes

-- The environment and arguments that `execvpe` is called with; `none` is a variable that is not set;
-- `__IP2UNIX_VERBOSITY` stays as it was found unless it is set.
pub record Launch : Type 0 where
  pub preload : Bytes
  pub rules_text : Bytes
  pub verbosity_text : Option Bytes
  pub argv : List Bytes

pub data Outcome : Type 0 where
  exit_success exit_failure : Outcome
  launches : Launch → Outcome

-- What the loop over the options leaves.
pub data Scanned : Type 0 where
  exits : Outcome → Scanned
  settled : Settings → Scanned

abbrev pub defaults : Settings
defaults = record {
  check_only = false;
  show_rules = false;
  verbosity = 0;
  rulefile = none;
  ruledata = none;
  rule_args = [];
}

-- `std::optional` of what a parser of YAML answers; its message is on the terminal.
abbrev pub to_optional : {E A : Type 0} → Answer E A → Result (Option A)
to_optional (yields a) = ret (some a)
to_optional (complains e) = ret none
to_optional escapes = throws

abbrev pub put_first : ℕ → List Bytes → List Bytes
put_first c [] = (c ∷ []) ∷ []
put_first c (line ∷ lines) = (c ∷ line) ∷ lines

-- `std::getline` until the end of the input.
unfoldable pub lines_of : Bytes → List Bytes
lines_of [] = []
lines_of (c ∷ s) = let rest = lines_of s in if c == 10 then [] ∷ rest else put_first c rest

-- A line without its leading whitespace, unless it is empty or a comment.
abbrev pub rule_line : Bytes → Option Bytes
rule_line [] = none
rule_line (c ∷ line) = if c == b'#' then none else some (c ∷ line)

unfoldable pub rule_lines_of : List Bytes → List Bytes
unfolding skip_space
rule_lines_of [] = []
rule_lines_of (line ∷ lines) = elim (rule_line (skip_space line)) [
  | none ↦ rule_lines_of lines
  | some arg ↦ arg ∷ rule_lines_of lines
]

unfoldable pub push_rule_args : List Bytes → Option Input → Option (List Bytes)
unfolding lines_of rule_lines_of
push_rule_args rule_args none = none
push_rule_args rule_args (some input) =
    if input.is_bad then none else some (rule_args ++ rule_lines_of (lines_of input.text))

module _ (env : Environment) (host : Host) where
  -- The cases `'y'` and `'f'`.
  unfoldable pub read_rule_file : Settings → Bytes → Option Settings
  unfolding is_yaml_rule_file push_rule_args
  read_rule_file s filename =
      if is_yaml_rule_file host.yaml (host.load_file filename)
      then some (record s { rulefile = some filename })
      else elim (push_rule_args s.rule_args (host.open_file filename)) [
        | none ↦ none
        | some args ↦ some (record s { rulefile = none; rule_args = args })
      ]

  unfoldable pub scan_options : Settings → List Opt → Scanned
  unfolding read_rule_file
  scan_options s [] = settled s
  scan_options s (help ∷ opts) = exits exit_success
  scan_options s (version ∷ opts) = exits exit_success
  scan_options s (check ∷ opts) = scan_options (record s { check_only = true }) opts
  scan_options s (print ∷ opts) = scan_options (record s { show_rules = true }) opts
  scan_options s (verbose ∷ opts) =
      scan_options (record s { verbosity = (s.verbosity + 1) % 2 ^ 32 }) opts
  scan_options s (unknown ∷ opts) = exits exit_failure
  scan_options s (rule_arg arg ∷ opts) =
      scan_options (record s { rule_args = s.rule_args ++ arg ∷ [] }) opts
  scan_options s (rules_data arg ∷ opts) = scan_options (record s { ruledata = some arg }) opts
  scan_options s (file arg ∷ opts) = elim (read_rule_file s arg) [
    | none ↦ exits exit_failure
    | some s' ↦ scan_options s' opts
  ]
  scan_options s (rules_file arg ∷ opts) = elim (read_rule_file s arg) [
    | none ↦ exits exit_failure
    | some s' ↦ scan_options s' opts
  ]

  -- The rules of `-r` and of files of rules, in their order; `none` is a rule that is refused.
  unfoldable pub parse_args : List Bytes → Result (Option (List Rule))
  unfolding parse_rule_arg
  parse_args [] = ret (some [])
  parse_args (arg ∷ args) =
      let rest = parse_args args in
      parse_rule_arg env arg >>= λ result. elim result [
        | refused e ↦ ret none
        | parsed r ↦ rest >>= λ rules. ret (elim rules [ none ↦ none | some rs ↦ some (r ∷ rs) ])
      ]

  abbrev pub is_none : {A : Type 0} → Option A → Bool
  is_none none = true
  is_none (some a) = false

  unfoldable pub yaml_rules : Bytes → Bool → Result (Option (List Rule))
  unfolding parse_rules
  yaml_rules content content_is_filename =
      to_optional (parse_rules host.yaml env host.load_file host.load content content_is_filename)

  -- The rules that the settings name; `none` is an error.
  unfoldable pub choose_rules : Settings → Result (Option (List Rule))
  unfolding parse_args yaml_rules
  choose_rules s = elim s.rule_args [
    | arg ∷ args ↦
        if is_none s.rulefile && is_none s.ruledata then parse_args (arg ∷ args) else ret none
    | [] ↦ elim s.rulefile [
      | some filename ↦ if is_none s.ruledata then yaml_rules filename true else ret none
      | none ↦ elim s.ruledata [ some content ↦ yaml_rules content false | none ↦ ret none ]
    ]
  ]

  abbrev pub preload_value : Bytes → Option Bytes → Bytes
  preload_value libpath none = libpath
  preload_value libpath (some []) = libpath
  preload_value libpath (some (c ∷ preload)) = libpath ++ b':' ∷ c ∷ preload

  -- `run_preload`, up to `execvpe`, where `__IP2UNIX_VERBOSITY` is `verbosity_text` by then.
  unfoldable pub run_preload : Option Bytes → List Rule → List Bytes → Outcome
  unfolding serialise_rules
  run_preload verbosity_text rules argv = elim host.libpath [
    | none ↦ exit_failure
    | some libpath ↦
        if not host.same_version
        then exit_failure
        else launches (record {
          preload = preload_value libpath host.ld_preload;
          rules_text = serialise_rules rules;
          verbosity_text = verbosity_text;
          argv = argv;
        })
  ]

  -- Where there is a program, the variable is set if there was an option `-v`, and left as it is
  -- otherwise.
  unfoldable pub start_program : Settings → List Rule → List Bytes → Outcome
  unfolding run_preload decimal
  start_program s rules [] = exit_failure
  start_program s rules (program ∷ args) =
      run_preload (if ltb 0 s.verbosity then some (decimal s.verbosity) else host.verbosity_text)
        rules (program ∷ args)

  -- `main` behind the loop.
  unfoldable pub run : Settings → List Bytes → Result Outcome
  unfolding choose_rules start_program print_rules
  run s argv = choose_rules s >>= λ chosen. elim chosen [
    | none ↦ ret exit_failure
    | some rules ↦ (if s.show_rules then print_rules env rules else ret []) >>= λ printed.
        ret (if s.check_only then exit_success else start_program s rules argv)
  ]

  unfoldable pub main : List Opt → List Bytes → Result Outcome
  unfolding scan_options run
  main opts argv = elim (scan_options defaults opts) [
    | exits outcome ↦ ret outcome
    | settled s ↦ run s argv
  ]
