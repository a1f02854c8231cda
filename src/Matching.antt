-- ===== src/Matching.antt =====
-- `match_rule` of src/preload.cc: which rule decides over an address.
pub mod First
use ip2unix.Base.{
  Bool, List, Option, [], false, if◌then◌else◌, is_some, ltb, none, not, some, true, ℕ, ◌&&◌, ◌==◌,
  ◌||◌, ◌∷◌,
}
use ip2unix.Base.Text.{Bytes, bytes_eq}
use ip2unix.Rules.{Rule, RuleDir, SocketType, incoming, invalid, outgoing, tcp, udp}
use ip2unix.SockAddr.{Inet, SockAddr, get_host, get_port}

unfoldable pub dir_eq : RuleDir → RuleDir → Bool
dir_eq incoming incoming = true
dir_eq outgoing outgoing = true
dir_eq _ _ = false

unfoldable pub type_eq : SocketType → SocketType → Bool
type_eq tcp tcp = true
type_eq udp udp = true
type_eq invalid invalid = true
type_eq _ _ = false

-- `!=` between an optional value and one that is there.
abbrev pub differs {ℓ} : {A : Type ℓ} → (A → A → Bool) → Option A → A → Bool
differs eq none a = true
differs eq (some b) a = not (eq b a)

-- `rule.field && field != value`.
abbrev pub excludes {ℓ} : {A : Type ℓ} → (A → A → Bool) → Option A → A → Bool
excludes eq none a = false
excludes eq (some b) a = not (eq b a)

-- `rule.address && addr.get_host() != rule.address`.
abbrev pub excludes_host : Option Bytes → Option Bytes → Bool
excludes_host none host = false
excludes_host (some address) host = differs bytes_eq host address

-- The block under `if (rule.port)`.
unfoldable pub excludes_port : Option ℕ → Option ℕ → Option ℕ → Bool
excludes_port none port_end addrport = false
excludes_port (some port) (some port_end) (some addrport) =
    ltb addrport port || ltb port_end addrport
excludes_port (some port) (some port_end) none = true
excludes_port (some port) none addrport = differs ◌==◌ addrport port

-- What the loop does with a rule: go on, return `nullopt`, or return the rule.
pub data Verdict : Type 0 where
  skip ignored taken : Verdict

unfoldable pub judge : Inet → SockAddr → SocketType → RuleDir → Rule → Verdict
unfolding dir_eq type_eq excludes_port
judge net addr type dir rule =
    if excludes dir_eq rule.direction dir
    then skip
    else if excludes type_eq rule.type type
    then skip
    else if excludes_host rule.address (get_host net addr)
    then skip
    else if excludes_port rule.port rule.port_end (get_port addr)
    then skip
    else if rule.ignore
    then ignored
    else if rule.socket_activation
    then taken
    else if not (is_some rule.socket_path) && not rule.reject && not rule.blackhole
    then skip
    else taken

-- What the loop returns, given what it returns for the rules behind this one.
unfoldable pub follow : Verdict → ℕ × Rule → Option (ℕ × Rule) → Option (ℕ × Rule)
follow skip match later = later
follow ignored match later = none
follow taken match later = some match

-- The loop. `rulepos` is 0 before it, and nothing in it changes `rulepos`.
unfoldable pub match_from :
    Inet → SockAddr → SocketType → RuleDir → ℕ → List Rule → Option (ℕ × Rule)
unfolding follow
match_from net addr type dir rulepos [] = none
match_from net addr type dir rulepos (rule ∷ rules) =
    follow (judge net addr type dir rule) (rulepos, rule)
      (match_from net addr type dir rulepos rules)

unfoldable pub match_rule : Inet → SockAddr → SocketType → RuleDir → List Rule → Option (ℕ × Rule)
unfolding match_from judge
match_rule net addr type dir rules = match_from net addr type dir 0 rules
