-- ===== src/RuleParser/Print.antt =====
-- `print_rules`: the listing of the rules. `throws` is `value()` of a socket path that is not there.
pub mod Returns
use ip2unix.Base.{List, Option, [], if◌then◌else◌, none, some, ℕ, ◌++◌, ◌+◌, ◌-◌, ◌∷◌}
use ip2unix.Base.Text.{Bytes, codes}
use ip2unix.Base.Decimal.{decimal}
use ip2unix.Base.Integer.{ℤ}
use ip2unix.Rules.{Rule, RuleDir, SocketType, incoming, outgoing, tcp, udp}
use ip2unix.RuleParser.Result.{Environment, Result, ret, throws, ◌>>=◌}

abbrev newline : Bytes
newline = 10 ∷ []

unfoldable pub direction_text : Option RuleDir → Bytes
direction_text (some incoming) = codes "incoming"
direction_text (some outgoing) = codes "outgoing"
direction_text none = codes "both"

unfoldable pub type_text : Option SocketType → Bytes
type_text (some tcp) = codes "TCP"
type_text (some udp) = codes "UDP"
type_text _ = codes "TCP and UDP"

unfoldable pub port_text : Option ℕ → Bytes
port_text none = codes "<any>"
port_text (some port) = decimal port

unfoldable pub address_text : Option Bytes → Bytes
address_text none = codes "<any>"
address_text (some address) = address

unfoldable pub ports_line : Option ℕ → Option ℕ → Bytes
unfolding port_text
ports_line port none = codes "  Port: " ++ port_text port ++ newline
ports_line port (some port_end) =
    codes "  Ports: " ++ port_text port ++ codes " - " ++ decimal port_end ++ newline

unfoldable pub activation_text : Option Bytes → Bytes
activation_text none = codes "."
activation_text (some name) = codes " with file descriptor name: " ++ name

unfoldable pub errno_text : Environment → Option ℤ → Bytes
errno_text env none = []
errno_text env (some errno) = codes " with errno " ++ env.errno2name errno

unfoldable pub path_line : Option Bytes → Result Bytes
path_line none = throws
path_line (some path) = ret (codes "  Socket path: " ++ path ++ newline)

unfoldable pub action_line : Environment → Rule → Result Bytes
unfolding activation_text errno_text path_line
action_line env rule =
    if rule.socket_activation
    then ret (codes "  Socket activation" ++ activation_text rule.fd_name ++ newline)
    else if rule.reject
    then ret (
        codes "  Reject connect() and bind() calls"
        ++ errno_text env rule.reject_errno
        ++ codes "."
        ++ newline)
    else if rule.blackhole
    then ret (codes "  Blackhole the socket." ++ newline)
    else if rule.ignore
    then ret (codes "  Don't handle this socket." ++ newline)
    else path_line rule.socket_path

-- What is written for a rule before its action.
unfoldable pub rule_lines : ℕ → Rule → Bytes
unfolding direction_text type_text address_text ports_line
rule_lines position rule =
    codes "Rule #"
    ++ decimal position
    ++ codes ":"
    ++ newline
    ++ codes "  Direction: "
    ++ direction_text rule.direction
    ++ newline
    ++ codes "  IP Type: "
    ++ type_text rule.type
    ++ newline
    ++ codes "  Address: "
    ++ address_text rule.address
    ++ newline
    ++ ports_line rule.port rule.port_end

-- The loop, behind `position` rules.
unfoldable pub print_from : Environment → ℕ → List Rule → Result Bytes
unfolding rule_lines action_line
print_from env position [] = ret []
print_from env position (rule ∷ rules) = action_line env rule >>= λ action.
    print_from env (position + 1) rules >>= λ rest.
    ret (rule_lines (position + 1) rule ++ action ++ rest)

unfoldable pub print_rules : Environment → List Rule → Result Bytes
unfolding print_from
print_rules env rules = print_from env 0 rules
