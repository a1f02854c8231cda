-- ===== src/Tests/Yaml.antt =====
-- Documents that stand in for those of yaml-cpp.
use ip2unix.Base.{
  Bool, List, Option, [], false, if◌then◌else◌, map, none, refl, some, true, ◌∷◌, ◌≡◌,
}
use ip2unix.Base.Text.{Bytes, bytes_eq, codes}
use ip2unix.Base.Integer.{pos}
use ip2unix.Rules.{Rule, default_rule}
use ip2unix.Base.Decimal.{value}
use ip2unix.RuleParser.Validate.{check_action, check_address, check_ports}
use ip2unix.RuleParser.Yaml.{
  Yaml, complains, document, in_rule, invalid_key, mapping, parse_document, root_not_sequence,
  scalar, sequence, yields,
}
use ip2unix.Tests.Args.{env}

-- A text, a map from texts to texts, or a sequence of such maps.
pub data Document : Type 0 where
  text : Bytes → Document
  options : List (Bytes × Bytes) → Document
  rule_list : List (List (Bytes × Bytes)) → Document

abbrev bool_text : Bytes → Option Bool
bool_text s =
    if bytes_eq s (codes "true")
    then some true
    else if bytes_eq s (codes "false")
    then some false
    else none

abbrev pub documents : Yaml
documents = record {
  Node = Document;
  node_type = elim [ text s ↦ scalar | options m ↦ mapping | rule_list l ↦ sequence ];
  elements = elim [ text s ↦ [] | options m ↦ [] | rule_list l ↦ map options l ];
  entries = elim [
    | text s ↦ []
    | options m ↦ map (λ (e : Bytes × Bytes). (text e.0, text e.1)) m
    | rule_list l ↦ []
  ];
  as_string = elim [ text s ↦ some s | options m ↦ none | rule_list l ↦ none ];
  as_bool = elim [ text s ↦ bool_text s | options m ↦ none | rule_list l ↦ none ];
}

abbrev pub web_document : Document
web_document = rule_list (
    ((codes "socketPath", codes "/run/web") ∷ (codes "port", codes "080") ∷ [])
    ∷ ((codes "reject", codes "true") ∷ (codes "rejectError", codes "13") ∷ [])
    ∷ [])

abbrev pub web_rules : List Rule
web_rules =
    record default_rule { port = some 80; socket_path = some (codes "/run/web") }
    ∷ record default_rule { reject = true; reject_errno = some (pos 13) }
    ∷ []

parse_web : parse_document documents env (document web_document) ≡ yields web_rules
unfolding parse_document value check_address check_ports check_action
parse_web = refl

-- The second rule has an option with a wrong name.
refuse_option :
    parse_document documents env (
      document
        (rule_list (((codes "ignore", codes "true") ∷ []) ∷ ((codes "prot", codes "1") ∷ []) ∷ [])))
    ≡ complains (in_rule 1 (invalid_key (codes "prot")))
unfolding parse_document check_address check_ports check_action
refuse_option = refl

refuse_text :
    parse_document documents env (document (text (codes "x")))
    ≡ complains (root_not_sequence (codes "a scalar"))
unfolding parse_document
refuse_text = refl
