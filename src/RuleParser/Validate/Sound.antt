-- ===== src/RuleParser/Validate/Sound.antt =====
-- `validate_rule` accepts exactly the rules of an independent description.
use ip2unix.Base.{
  Bool, Option, [], arith, false, none, refl, some, true, ℕ, ◌<◌, ◌↔◌, ◌∷◌, ◌≡◌, ◌⊎◌,
}
use ip2unix.Base.Text.{Bytes}
use ip2unix.Rules.{Rule, RuleDir, incoming}
use ip2unix.RuleParser.Result.{Environment, c_str}
use ip2unix.RuleParser.Validate.{
  RuleError, check_action, check_address, check_ports, is_absolute, validate_rule, ◌otherwise◌,
}

abbrev pub AddressOk : Environment → Option Bytes → Type 0
AddressOk env none = Unit
AddressOk env (some address) =
    (env.is_ipv4 (c_str address) ≡ true) ⊎ (env.is_ipv6 (c_str address) ≡ true)

-- An end port needs a smaller start port.
abbrev pub PortsOk : Option ℕ → Option ℕ → Type 0
PortsOk port none = Unit
PortsOk none (some port_end) = ⊥
PortsOk (some port) (some port_end) = port < port_end

-- An absolute socket path and no other action; or a rejection, or a black hole for incoming
-- connections, each of which may stand beside socket activation; or to be ignored; or socket
-- activation.
abbrev pub ActionOk : Option RuleDir → Option Bytes → Bool → Bool → Bool → Bool → Type 0
ActionOk direction (some path) activation reject blackhole ignore =
    (is_absolute path ≡ true)
    × (activation ≡ false)
    × (reject ≡ false)
    × (blackhole ≡ false)
    × (ignore ≡ false)
ActionOk direction none activation true blackhole ignore = (blackhole ≡ false) × (ignore ≡ false)
ActionOk direction none activation false true ignore =
    (ignore ≡ false) × (direction ≡ some incoming)
ActionOk direction none activation false false ignore =
    ((activation ≡ true) × (ignore ≡ false)) ⊎ ((activation ≡ false) × (ignore ≡ true))

pub record IsValidRule (env : Environment) (rule : Rule) : Type 0 where
  pub address_ok : AddressOk env rule.address
  pub ports_ok : PortsOk rule.port rule.port_end
  pub action_ok :
      ActionOk rule.direction rule.socket_path rule.socket_activation rule.reject rule.blackhole
        rule.ignore

address_iff :
    (env : Environment) (o : Option Bytes) → (check_address env o ≡ none) ↔ AddressOk env o
unfolding check_address
address_iff env none = ((λ _. tt), λ _. refl)
address_iff env (some a) = (λ h. ground arith, λ h. ground arith)

ports_iff : (p e : Option ℕ) → (check_ports p e ≡ none) ↔ PortsOk p e
unfolding check_ports
ports_iff none none = ((λ _. tt), λ _. refl)
ports_iff none (some e) = ((λ h. cc), λ h. absurd h)
ports_iff (some p) none = ((λ _. tt), λ _. refl)
ports_iff (some p) (some e) = ((λ h. ground arith), λ h. ground arith)

abbrev ActionsOk : Rule → Option Bytes → Type 0
ActionsOk rule path =
    ActionOk rule.direction path rule.socket_activation rule.reject rule.blackhole rule.ignore

action_sound :
    (rule : Rule) (path : Option Bytes) → check_action rule path ≡ none → ActionsOk rule path
unfolding check_action
action_sound rule (some path) h = ground arith
action_sound rule none h = ground arith

action_complete :
    (rule : Rule) (path : Option Bytes) → ActionsOk rule path → check_action rule path ≡ none
unfolding check_action
action_complete rule (some []) h = ground arith
action_complete rule (some (c ∷ path)) h = ground arith
action_complete rule none h = ground arith

otherwise_none : (a b : Option RuleError) → (a otherwise b) ≡ none → (a ≡ none) × (b ≡ none)
otherwise_none none b h = (refl, h)
otherwise_none (some e) b h = cc

-- `validate_rule` has nothing to say of a rule exactly if the rule is valid: its address, if any, is
-- an IPv4 or IPv6 address, an end port comes with a smaller start port, and its actions fit together.
pub validate_rule_iff :
    (env : Environment) (rule : Rule) → (validate_rule env rule ≡ none) ↔ IsValidRule env rule
unfolding validate_rule
validate_rule_iff env rule = (
  λ h.
      let (a, later) = otherwise_none (check_address env rule.address) _ h in
      let (p, c) = otherwise_none (check_ports rule.port rule.port_end) _ later in
      record {
        address_ok = (address_iff env rule.address).0 a;
        ports_ok = (ports_iff rule.port rule.port_end).0 p;
        action_ok = action_sound rule rule.socket_path c;
      },
  λ v. rw (
    (address_iff env rule.address).1 v.address_ok,
    (ports_iff rule.port rule.port_end).1 v.ports_ok,
    action_complete rule rule.socket_path v.action_ok,
  ),
)
