-- ===== src/RuleParser/Validate.antt =====
-- `validate_rule`.
pub mod Sound
use ip2unix.Base.{
  Bool, Option, [], false, if◌then◌else◌, ltb, none, not, some, true, ℕ, ◌&&◌, ◌==◌, ◌||◌, ◌∷◌,
}
use ip2unix.Base.Text.{Bytes}
use ip2unix.Rules.{Rule, RuleDir, incoming, outgoing}
use ip2unix.RuleParser.Result.{Environment, c_str}
use ip2unix.RuleParser.Port.{is_empty}

-- The messages, in the order of the source.
pub data RuleError : Type 0 where
  bad_address : Bytes → RuleError
  end_without_start start_bigger_than_end start_same_as_end : RuleError
  empty_path relative_path path_with_activation path_with_reject : RuleError
  path_with_ignore path_with_blackhole : RuleError
  reject_with_blackhole ignore_with_blackhole_or_reject ignore_with_activation : RuleError
  outgoing_blackhole no_action : RuleError

-- The first of two checks that complains.
infixr 5 ◌otherwise◌
abbrev pub ◌otherwise◌ : Option RuleError → Option RuleError → Option RuleError
none otherwise next = next
(some e) otherwise next = some e

unfoldable pub check_address : Environment → Option Bytes → Option RuleError
unfolding c_str
check_address env none = none
check_address env (some address) =
    if not (env.is_ipv4 (c_str address)) && not (env.is_ipv6 (c_str address))
    then some (bad_address address)
    else none

unfoldable pub check_ports : Option ℕ → Option ℕ → Option RuleError
check_ports none none = none
check_ports none (some port_end) = some end_without_start
check_ports (some port) none = none
check_ports (some port) (some port_end) =
    if ltb port_end port
    then some start_bigger_than_end
    else if port == port_end
    then some start_same_as_end
    else none

abbrev pub is_incoming : Option RuleDir → Bool
is_incoming none = false
is_incoming (some incoming) = true
is_incoming (some outgoing) = false

abbrev pub is_absolute : Bytes → Bool
is_absolute [] = false
is_absolute (c ∷ path) = c == b'/'

-- The branches on the socket path and the actions.
unfoldable pub check_action : Rule → Option Bytes → Option RuleError
check_action rule (some path) =
    if is_empty path
    then some empty_path
    else if not (is_absolute path)
    then some relative_path
    else if rule.socket_activation
    then some path_with_activation
    else if rule.reject
    then some path_with_reject
    else if rule.ignore
    then some path_with_ignore
    else if rule.blackhole
    then some path_with_blackhole
    else none
check_action rule none =
    if rule.reject && rule.blackhole
    then some reject_with_blackhole
    else if rule.ignore && (rule.blackhole || rule.reject)
    then some ignore_with_blackhole_or_reject
    else if rule.ignore && rule.socket_activation
    then some ignore_with_activation
    else if rule.reject || rule.ignore
    then none
    else if rule.blackhole
    then (if not (is_incoming rule.direction) then some outgoing_blackhole else none)
    else if not rule.socket_activation
    then some no_action
    else none

unfoldable pub validate_rule : Environment → Rule → Option RuleError
validate_rule env rule =
    check_address env rule.address
    otherwise check_ports rule.port rule.port_end
    otherwise check_action rule rule.socket_path
