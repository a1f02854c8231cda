-- ===== src/Tests/Rules.antt =====
-- Rules on their way from the wrapper to the library, and matched there.
use ip2unix.Base.{All, List, [], arith, false, none, refl, some, true, ℕ, ◌↔◌, ◌∷◌, ◌≡◌}
use ip2unix.Base.Text.{codes}
use ip2unix.Base.Decimal.{decimal}
use ip2unix.Base.Integer.{pos}
use ip2unix.Rules.{Rule, default_rule, incoming, tcp, udp}
use ip2unix.SockAddr.{Inet, get_host, get_port, inet}
use ip2unix.RuleParser.Result.{Environment}
use ip2unix.RuleParser.Validate.Sound.{IsValidRule}
use ip2unix.Serial.Stream.{hang, ok}
use ip2unix.Serial.Scalar.{
  deserialise_string, serialise_bool, serialise_int, serialise_rule_dir, serialise_socket_type,
  serialise_string, serialise_unsigned, string_rounds,
}
use ip2unix.Serial.Scalar.Unterminated.{deserialise_string-hangs}
use ip2unix.Serial.Container.{serialise_optional, serialise_sequence}
use ip2unix.Serial.Record.{deserialise_rules, serialise_rule, serialise_rules}
use ip2unix.Serial.Record.RoundTrip.{deserialise_rules-serialise_rules}
use ip2unix.Matching.{dir_eq, excludes_port, match_rule, type_eq}
use ip2unix.Matching.First.{Decides, match_rule_iff}

abbrev env : Environment
env = record {
  is_ipv4 = λ s. true;
  is_ipv6 = λ s. false;
  name2errno = λ s. none;
  errno2name = λ n. codes "EPERM";
  current_dir = codes "/run";
}

abbrev net : Inet
net = record {
  pton4 = λ s. some 2130706433;
  pton6 = λ s. none;
  ntop4 = λ n. some (codes "127.0.0.1");
  ntop6 = λ s. none;
}

abbrev web : Rule
web = record default_rule {
  direction = some incoming;
  port = some 80;
  port_end = some 90;
  socket_path = some (codes "/run/web!&");
}

abbrev refusal : Rule
refusal = record default_rule { type = some tcp; reject = true; reject_errno = some (pos 13) }

abbrev rules : List Rule
rules = refusal ∷ web ∷ []

serialise_web : serialise_rules (web ∷ []) ≡ codes "i!!80&90&/run/web\\!\\&&f!f!ff"
unfolding serialise_rules serialise_sequence serialise_rule serialise_optional serialise_rule_dir
    serialise_socket_type serialise_string serialise_unsigned serialise_bool serialise_int decimal
serialise_web = refl

deserialise_rules-serialise_rules_example : deserialise_rules (serialise_rules rules) ≡ ok rules []
deserialise_rules-serialise_rules_example =
    deserialise_rules-serialise_rules rules (omega arith, (omega arith, tt))

deserialise_string-hangs_example :
    ((rounds : ℕ) → string_rounds rounds [] (codes "ab") ≡ none)
    × (deserialise_string (codes "ab") ≡ hang)
deserialise_string-hangs_example = deserialise_string-hangs (codes "ab") (omega arith)

rules_valid : All (IsValidRule env) rules
rules_valid = (
  record { address_ok = tt; ports_ok = tt; action_ok = (refl, refl) },
  (
    record { address_ok = tt; ports_ok = omega arith; action_ok = (refl, refl, refl, refl, refl) },
    tt,
  ),
)

match_rule_iff_example :
    (match_rule net (inet 85 2130706433) udp incoming rules ≡ some (0, web))
    ↔ Decides net (inet 85 2130706433) udp incoming rules (some (0, web))
match_rule_iff_example =
    match_rule_iff net (inet 85 2130706433) udp incoming env rules (some (0, web)) rules_valid

match_web : match_rule net (inet 85 2130706433) udp incoming rules ≡ some (0, web)
unfolding match_rule get_port get_host dir_eq type_eq excludes_port
match_web = refl
