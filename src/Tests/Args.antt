-- ===== src/Tests/Args.antt =====
-- Rules on the command line.
use ip2unix.Base.{[], false, if◌then◌else◌, none, refl, some, true, ◌++◌, ◌^◌, ◌↔◌, ◌∷◌, ◌≡◌, ◌≤◌}
use ip2unix.Base.Text.{bytes_eq, codes}
use ip2unix.Base.Integer.{pos}
use ip2unix.Rules.{default_rule, incoming, outgoing}
use ip2unix.Base.Decimal.{decimal, value}
use ip2unix.RuleParser.Print.{print_rules}
use ip2unix.RuleParser.Print.Returns.{Returns, print_rules-Returns}
use ip2unix.RuleParser.Result.{Environment, ret, throws}
use ip2unix.RuleParser.Port.{all_digits, is_empty, string2port}
use ip2unix.RuleParser.Validate.{check_action, check_address, check_ports, no_action, validate_rule}
use ip2unix.RuleParser.Port.Range.{IsPort, string2port-throws_iff, string2port_iff}
use ip2unix.RuleParser.Validate.Sound.{IsValidRule, validate_rule_iff}
use ip2unix.RuleParser.Arg.Path.{escape, parse_rule_arg-escape}
use ip2unix.RuleParser.Arg.Valid.{parse_rule_arg-IsValidRule}
use ip2unix.RuleParser.Arg.{
  invalid_end_port, invalid_port, invalid_rule, parse_rule_arg, parsed, refused, unknown_flag,
}

abbrev pub env : Environment
env = record {
  is_ipv4 = λ s. bytes_eq s (codes "1.2.3.4");
  is_ipv6 = λ s. false;
  name2errno = λ s. if bytes_eq s (codes "EPERM") then some (pos 1) else none;
  errno2name = λ n. codes "EPERM";
  current_dir = codes "/run";
}

parse_path :
    parse_rule_arg env (codes "out,port=80-0090,addr=1.2.3.4,path=a\\,b")
    ≡ ret (
        parsed (record default_rule {
          direction = some outgoing;
          port = some 80;
          port_end = some 90;
          address = some (codes "1.2.3.4");
          socket_path = some (codes "/run/a,b");
        }))
unfolding parse_rule_arg bytes_eq value check_address check_ports check_action
parse_path = refl

parse_errors :
    (parse_rule_arg env (codes "tcp,port=80000") ≡ ret (refused (invalid_port 9 5)))
    × (parse_rule_arg env (codes "port=1-x") ≡ ret (refused (invalid_end_port 7 1)))
    × (parse_rule_arg env (codes "reject=EPERM,foo") ≡ ret (refused (unknown_flag 13 3)))
    × (parse_rule_arg env (codes "in") ≡ ret (refused (invalid_rule no_action)))
    × (parse_rule_arg env (codes "port=99999999999999999999") ≡ throws)
unfolding parse_rule_arg bytes_eq value check_address check_ports check_action
parse_errors = (refl, refl, refl, refl, refl)

parse_rule_arg-escape_example :
    parse_rule_arg env (codes "path=" ++ escape (codes "/a,b\\c"))
    ≡ ret (parsed (record default_rule { socket_path = some (codes "/a,b\\c") }))
parse_rule_arg-escape_example = parse_rule_arg-escape env (codes "a,b\\c")

parse_blackhole :
    parse_rule_arg env (codes "in,blackhole")
    ≡ ret (parsed (record default_rule { direction = some incoming; blackhole = true }))
unfolding parse_rule_arg bytes_eq check_address check_ports check_action
parse_blackhole = refl

string2port_iff_example : (string2port (codes "0080") ≡ ret (some 80)) ↔ IsPort (codes "0080") 80
string2port_iff_example = string2port_iff (codes "0080") 80

string2port-throws_iff_example : (string2port (codes "99999999999999999999") ≡ throws) ↔ (
    (is_empty (codes "99999999999999999999") ≡ false)
    × (all_digits (codes "99999999999999999999") ≡ true)
    × (2 ^ 64 ≤ value 0 (codes "99999999999999999999")))
string2port-throws_iff_example = string2port-throws_iff (codes "99999999999999999999")

validate_rule_iff_example : (validate_rule env default_rule ≡ none) ↔ IsValidRule env default_rule
validate_rule_iff_example = validate_rule_iff env default_rule

print_blackhole :
    print_rules env (record default_rule { direction = some incoming; blackhole = true } ∷ [])
    ≡ ret (
        codes "Rule #1:\n  Direction: incoming\n  IP Type: TCP and UDP\n  Address: <any>\n"
        ++ codes "  Port: <any>\n  Blackhole the socket.\n")
unfolding print_rules decimal
print_blackhole = refl

print_rules-Returns_example :
    Returns
      (print_rules env (record default_rule { direction = some incoming; blackhole = true } ∷ []))
print_rules-Returns_example =
    print_rules-Returns env
      (record default_rule { direction = some incoming; blackhole = true } ∷ [])
      (parse_rule_arg-IsValidRule env (codes "in,blackhole") parse_blackhole, tt)
