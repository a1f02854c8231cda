-- ===== src/RuleParser/Yaml.antt =====
-- `parse_rules`: rules out of a YAML document. The loader and its nodes are those of yaml-cpp.
pub mod Sound
use ip2unix.Base.{Bool, List, Option, [], false, if◌then◌else◌, map, none, some, suc, true, ℕ, ◌∷◌}
use ip2unix.Base.Text.{Bytes, bytes_eq, codes}
use ip2unix.Base.Integer.{ℤ}
use ip2unix.Rules.{Rule, RuleDir, SocketType, default_rule, incoming, outgoing, tcp, udp}
use ip2unix.RuleParser.Result.{Environment, Result, ret, throws}
use ip2unix.RuleParser.Port.{parse_errno, string2port}
use ip2unix.RuleParser.Validate.{RuleError, validate_rule}

pub data NodeType : Type 0 where
  undefined null scalar sequence mapping : NodeType

-- How `YAML::LoadFile` and `YAML::Load` end.
pub data Loaded (Node : Type 0) : Type 0 where
  document : Node → Loaded Node
  parser_exception bad_file : Loaded Node

-- yaml-cpp: the nodes that an iteration over a node gives, as elements and as pairs of a key and a
-- value, and the conversions, where `none` is an exception.
pub record Yaml : Type 1 where
  pub Node : Type 0
  pub node_type : Node → NodeType
  pub elements : Node → List Node
  pub entries : Node → List (Node × Node)
  pub as_string : Node → Option Bytes
  pub as_bool : Node → Option Bool

-- The messages. A rule's has its number, from 0.
pub data RuleMessage : Type 0 where
  not_convertible : Bytes → RuleMessage
  invalid_direction invalid_type invalid_reject_error invalid_key : Bytes → RuleMessage
  port_out_of_range port_end_out_of_range : RuleMessage
  invalid_rule : RuleError → RuleMessage

pub data YamlError : Type 0 where
  not_yaml not_readable : YamlError
  root_not_sequence : Bytes → YamlError
  in_rule : ℕ → RuleMessage → YamlError

-- A value, a message with `nullopt`, or an exception that nothing catches.
pub data Answer (E A : Type 0) : Type 0 where
  yields : A → Answer E A
  complains : E → Answer E A
  escapes : Answer E A

infixl 5 ◌>>=◌
abbrev pub ◌>>=◌ : {E A B : Type 0} → Answer E A → (A → Answer E B) → Answer E B
yields a >>= f = f a
complains e >>= f = complains e
escapes >>= f = escapes

-- An assignment of what is yielded.
abbrev pub assign : {E A B : Type 0} → (A → B) → Answer E A → Answer E B
assign f (yields a) = yields (f a)
assign f (complains e) = complains e
assign f escapes = escapes

abbrev pub of_result : {E A : Type 0} → Result A → Answer E A
of_result (ret a) = yields a
of_result throws = escapes

-- A value that is there, or else a message.
abbrev pub required : {E A : Type 0} → E → Option A → Answer E A
required e none = complains e
required e (some a) = yields a

unfoldable pub describe_nodetype : NodeType → Bytes
describe_nodetype undefined = codes "undefined"
describe_nodetype null = codes "null"
describe_nodetype scalar = codes "a scalar"
describe_nodetype sequence = codes "a sequence"
describe_nodetype mapping = codes "a map"

abbrev pub is_sequence : NodeType → Bool
is_sequence sequence = true
is_sequence _ = false

unfoldable pub direction_of_text : Bytes → Option RuleDir
unfolding bytes_eq
direction_of_text val =
    if bytes_eq val (codes "outgoing")
    then some outgoing
    else if bytes_eq val (codes "incoming")
    then some incoming
    else none

unfoldable pub type_of_text : Bytes → Option SocketType
unfolding bytes_eq
type_of_text val =
    if bytes_eq val (codes "tcp")
    then some tcp
    else if bytes_eq val (codes "udp")
    then some udp
    else none

module _ (yaml : Yaml) (env : Environment) where
  open yaml use {Node, node_type, elements, entries, as_string, as_bool}

  -- `RULE_CONVERT`.
  abbrev pub text_of : Bytes → Node → Answer RuleMessage Bytes
  text_of key value = required (not_convertible key) (as_string value)

  abbrev pub bool_of : Bytes → Node → Answer RuleMessage Bool
  bool_of key value = required (not_convertible key) (as_bool value)

  -- The value of a key that is a port.
  unfoldable pub port_of : Bytes → RuleMessage → Node → Answer RuleMessage ℕ
  unfolding string2port
  port_of key message value =
      text_of key value >>= λ val. of_result (string2port val) >>= λ port. required message port

  unfoldable pub errno_of : Node → Answer RuleMessage ℤ
  unfolding parse_errno
  errno_of value = text_of (codes "rejectError") value >>= λ val.
      of_result (parse_errno env val) >>= λ rej_errno. required (invalid_reject_error val) rej_errno

  unfoldable pub direction_at : Node → Answer RuleMessage RuleDir
  unfolding direction_of_text
  direction_at value = text_of (codes "direction") value >>= λ val.
      required (invalid_direction val) (direction_of_text val)

  unfoldable pub type_at : Node → Answer RuleMessage SocketType
  unfolding type_of_text
  type_at value =
      text_of (codes "type") value >>= λ val. required (invalid_type val) (type_of_text val)

  -- The options that say what to match.
  unfoldable pub set_match : Rule → Bytes → Node → Answer RuleMessage Rule → Answer RuleMessage Rule
  unfolding direction_at type_at port_of bytes_eq
  set_match rule key value more =
      if bytes_eq key (codes "direction")
      then assign (λ dir. record rule { direction = some dir }) (direction_at value)
      else if bytes_eq key (codes "type")
      then assign (λ type. record rule { type = some type }) (type_at value)
      else if bytes_eq key (codes "address")
      then assign (λ addr. record rule { address = some addr }) (text_of key value)
      else if bytes_eq key (codes "port")
      then assign (λ port. record rule { port = some port }) (port_of key port_out_of_range value)
      else if bytes_eq key (codes "portEnd")
      then assign (λ portend. record rule { port_end = some portend })
          (port_of key port_end_out_of_range value)
      else more

  -- The options that say what to do.
  unfoldable pub set_action : Rule → Bytes → Node → Answer RuleMessage Rule
  unfolding errno_of bytes_eq
  set_action rule key value =
      if bytes_eq key (codes "socketActivation")
      then assign (λ b. record rule { socket_activation = b }) (bool_of key value)
      else if bytes_eq key (codes "fdName")
      then assign (λ name. record rule { fd_name = some name }) (text_of key value)
      else if bytes_eq key (codes "reject")
      then assign (λ b. record rule { reject = b }) (bool_of key value)
      else if bytes_eq key (codes "rejectError")
      then assign (λ e. record rule { reject_errno = some e }) (errno_of value)
      else if bytes_eq key (codes "blackhole")
      then assign (λ b. record rule { blackhole = b }) (bool_of key value)
      else if bytes_eq key (codes "ignore")
      then assign (λ b. record rule { ignore = b }) (bool_of key value)
      else if bytes_eq key (codes "socketPath")
      then assign (λ path. record rule { socket_path = some path }) (text_of key value)
      else complains (invalid_key key)

  unfoldable pub set_key : Rule → Bytes → Node → Answer RuleMessage Rule
  unfolding set_match set_action
  set_key rule key value = set_match rule key value (set_action rule key value)

  -- The loop over the options. A key that is no string ends in an exception.
  unfoldable pub set_keys : Rule → List (Node × Node) → Answer RuleMessage Rule
  unfolding set_key
  set_keys rule [] = yields rule
  set_keys rule ((first, second) ∷ rest) = elim (as_string first) [
    | none ↦ escapes
    | some key ↦ set_key rule key second >>= λ rule'. set_keys rule' rest
  ]

  unfoldable pub check_rule : Rule → Answer RuleMessage Rule
  unfolding validate_rule
  check_rule rule = elim (validate_rule env rule) [
    | none ↦ yields rule
    | some errmsg ↦ complains (invalid_rule errmsg)
  ]

  unfoldable pub parse_rule : Node → Answer RuleMessage Rule
  unfolding set_keys check_rule
  parse_rule doc = set_keys default_rule (entries doc) >>= check_rule

  -- The message of a rule, with its number.
  abbrev pub at_rule : ℕ → Answer RuleMessage Rule → Answer YamlError Rule
  at_rule n (yields rule) = yields rule
  at_rule n (complains message) = complains (in_rule n message)
  at_rule n escapes = escapes

  unfoldable pub parse_from : ℕ → List Node → Answer YamlError (List Rule)
  unfolding parse_rule
  parse_from n [] = yields []
  parse_from n (node ∷ nodes) = at_rule n (parse_rule node) >>= λ rule.
      parse_from (suc n) nodes >>= λ rules. yields (rule ∷ rules)

  unfoldable pub parse_document : Loaded Node → Answer YamlError (List Rule)
  unfolding parse_from describe_nodetype
  parse_document parser_exception = complains not_yaml
  parse_document bad_file = complains not_readable
  parse_document (document doc) =
      if is_sequence (node_type doc)
      then parse_from 0 (elements doc)
      else complains (root_not_sequence (describe_nodetype (node_type doc)))

  -- `content` is the name of a file or a text.
  unfoldable pub parse_rules :
      (Bytes → Loaded Node) → (Bytes → Loaded Node) → Bytes → Bool → Answer YamlError (List Rule)
  unfolding parse_document
  parse_rules load_file load content true = parse_document (load_file content)
  parse_rules load_file load content false = parse_document (load content)

unfoldable pub is_yaml_rule_file : (yaml : Yaml) → Loaded (yaml.Node) → Bool
is_yaml_rule_file yaml (document doc) = is_sequence (yaml.node_type doc)
is_yaml_rule_file yaml parser_exception = false
is_yaml_rule_file yaml bad_file = true
