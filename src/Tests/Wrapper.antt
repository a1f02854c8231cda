-- ===== src/Tests/Wrapper.antt =====
-- Command lines of the wrapper.
use ip2unix.Base.{All, List, [], arith, false, map, none, refl, some, true, ℕ, ◌++◌, ◌∷◌, ◌≡◌}
use ip2unix.Base.Text.{Bytes, codes}
use ip2unix.Kernel.{Kernel}
use ip2unix.Rules.{Rule, default_rule, incoming}
use ip2unix.Serial.Record.{serialise_rules}
use ip2unix.RuleParser.Result.{ret}
use ip2unix.RuleParser.Arg.{parse_rule_arg}
use ip2unix.RuleParser.Validate.{check_action, check_address, check_ports}
use ip2unix.RuleParser.Validate.Sound.{IsValidRule}
use ip2unix.Base.Decimal.{value}
use ip2unix.Preload.{load_rules}
use ip2unix.RuleParser.Yaml.{document, is_yaml_rule_file, parse_document, parser_exception}
use ip2unix.Wrapper.{
  Host, Launch, Settings, choose_rules, defaults, file, launches, parse_args, rule_arg, run,
  run_preload, scan_options, start_program, verbose,
}
use ip2unix.Wrapper.Handover.{choose_rules-IsSoundRule, parse_args-IsValidRule, run-load_rules}
use ip2unix.Wrapper.RuleFile.{IsLine, joined, scan_options-file}
use ip2unix.RuleParser.InTypes.{ErrnosFit, IsSoundRule}
use ip2unix.Tests.Yaml.{documents, web_document, web_rules}
use ip2unix.Tests.Kernels.{kernel, no_file, process, texts}
use ip2unix.Tests.Args.{env}

abbrev pub args : List Bytes
args = codes "in,port=80,path=/run/web" ∷ codes "reject" ∷ []

-- A host with one file, which is no YAML and has the rules.
abbrev pub host : Host
host = record {
  yaml = texts;
  load_file = λ name. parser_exception;
  load = λ text. parser_exception;
  open_file = λ name. some (record { text = joined args; is_bad = false });
  libpath = some (codes "/lib/libip2unix.so");
  same_version = true;
  ld_preload = none;
  verbosity_text = none;
}

args-IsLine : All IsLine args
args-IsLine = ground arith

abbrev pub found_rules : List Rule
found_rules =
    record default_rule {
      direction = some incoming;
      port = some 80;
      socket_path = some (codes "/run/web");
    }
    ∷ record default_rule { reject = true }
    ∷ []

pub parse_both : parse_args env host args ≡ ret (some found_rules)
unfolding parse_args parse_rule_arg value check_address check_ports check_action
parse_both = refl

args_valid : All (IsValidRule env) found_rules
args_valid = parse_args-IsValidRule env host args found_rules parse_both

env-ErrnosFit : ErrnosFit env
env-ErrnosFit name e h = ground arith

abbrev pub settings : Settings
settings = record defaults { rule_args = args }

abbrev pub launch : Launch
launch = record {
  preload = codes "/lib/libip2unix.so";
  rules_text = serialise_rules found_rules;
  verbosity_text = none;
  argv = codes "nginx" ∷ [];
}

chooses_both : choose_rules env host settings ≡ ret (some found_rules)
unfolding choose_rules
chooses_both = parse_both

runs_nginx : run env host settings (codes "nginx" ∷ []) ≡ ret (launches launch)
unfolding run start_program run_preload choose_rules
runs_nginx = rw parse_both refl

-- The kernel with the environment that the program is launched in.
abbrev launched_in : Kernel ℕ
launched_in = record kernel { getenv = λ name os. some launch.rules_text }

run-load_rules_example : load_rules launched_in no_file process ≡ some (found_rules, process)
run-load_rules_example =
    run-load_rules env host launched_in no_file env-ErrnosFit settings (codes "nginx" ∷ [])
      found_rules launch process chooses_both runs_nginx refl

-- The option for inline YAML.
abbrev yaml_host : Host
yaml_host = record host {
  yaml = documents;
  load_file = λ name. parser_exception;
  load = λ content. document web_document;
}

abbrev yaml_settings : Settings
yaml_settings = record defaults { ruledata = some (codes "yaml") }

chooses_yaml : choose_rules env yaml_host yaml_settings ≡ ret (some web_rules)
unfolding choose_rules parse_document value check_address check_ports check_action
chooses_yaml = refl

choose_rules-IsSoundRule_example : All (IsSoundRule env) web_rules
choose_rules-IsSoundRule_example =
    choose_rules-IsSoundRule env yaml_host env-ErrnosFit yaml_settings web_rules chooses_yaml

scan_options-file_example :
    scan_options env host defaults (file (codes "rules") ∷ verbose ∷ [])
    ≡ scan_options env host defaults (map rule_arg args ++ verbose ∷ [])
unfolding is_yaml_rule_file
scan_options-file_example =
    scan_options-file env host args (codes "rules") defaults (verbose ∷ []) refl refl args-IsLine
      refl
