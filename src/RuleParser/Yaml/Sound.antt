-- ===== src/RuleParser/Yaml/Sound.antt =====
-- What `parse_rules` answers: valid rules, whose fields hold values of their types.
use ip2unix.Base.{
  All, Bool, List, Option, [], arith, false, if◌then◌else◌, none, refl, some, suc, true, ℕ, ◌∷◌,
  ◌≡◌,
}
use ip2unix.Base.Text.{Bytes, bytes_eq, codes}
use ip2unix.Base.Integer.{InInt32}
use ip2unix.Rules.{Rule, default_rule}
use ip2unix.Serial.Record.RoundTrip.{InTypes}
use ip2unix.RuleParser.Yaml.{
  Answer, Loaded, RuleMessage, Yaml, assign, at_rule, bad_file, check_rule, complains, direction_at,
  document, errno_of, escapes, invalid_reject_error, invalid_rule, is_sequence, of_result,
  parse_document, parse_from, parse_rule, parse_rules, parser_exception, port_end_out_of_range,
  port_of, port_out_of_range, required, set_action, set_key, set_keys, set_match, text_of, type_at,
  yields, ◌>>=◌,
}
use ip2unix.RuleParser.Result.{Environment, Result, ret, throws}
use ip2unix.RuleParser.Port.{parse_errno, string2port}
use ip2unix.RuleParser.Validate.{RuleError, validate_rule}
use ip2unix.RuleParser.Validate.Sound.{validate_rule_iff}
use ip2unix.RuleParser.InTypes.{
  ErrnosFit, IsSoundRule, IsUint16, ReadsAs, parse_errno-InInt32, string2port-IsUint16,
}

-- A postcondition on what is yielded.
abbrev pub Yields : {E A : Type 0} → (A → Type 0) → Answer E A → Type 0
Yields P (yields a) = P a
Yields P (complains e) = Unit
Yields P escapes = Unit

>>=-Yields :
    {E A B : Type 0} (P : A → Type 0) (Q : B → Type 0) (m : Answer E A) (f : A → Answer E B)
    → Yields P m
    → ((a : A) → P a → Yields Q (f a))
    → Yields Q (m >>= f)
>>=-Yields P Q (yields a) f h k = k a h
>>=-Yields P Q (complains e) f h k = tt
>>=-Yields P Q escapes f h k = tt

assign-Yields :
    {E A B : Type 0} (P : A → Type 0) (Q : B → Type 0) (f : A → B) (m : Answer E A)
    → Yields P m
    → ((a : A) → P a → Q (f a))
    → Yields Q (assign f m)
assign-Yields P Q f (yields a) h k = k a h
assign-Yields P Q f (complains e) h k = tt
assign-Yields P Q f escapes h k = tt

any_Yields : {E A : Type 0} (m : Answer E A) → Yields (λ _. Unit {0}) m
any_Yields (yields a) = tt
any_Yields (complains e) = tt
any_Yields escapes = tt

if_Yields :
    {E A : Type 0} (P : A → Type 0) (b : Bool) (m n : Answer E A)
    → Yields P m
    → Yields P n
    → Yields P (if b then m else n)
if_Yields P true m n hm hn = hm
if_Yields P false m n hm hn = hn

elim_Yields :
    {E A B : Type 0} (P : B → Type 0) (o : Option A) (m : Answer E B) (f : A → Answer E B)
    → Yields P m
    → ((a : A) → Yields P (f a))
    → Yields P (elim o as (λ _. Answer E B) [ none ↦ m | some a ↦ f a ])
elim_Yields P none m f hm hf = hm
elim_Yields P (some a) m f hm hf = hf a

module _ (yaml : Yaml) (env : Environment) where
  open yaml use {Node}

  -- A field that holds no number.
  plain_field :
      {A : Type 0} (m : Answer RuleMessage A) (f : A → Rule)
      → ((a : A) → InTypes (f a))
      → Yields InTypes (assign f m)
  plain_field m f h = assign-Yields (λ _. Unit {0}) InTypes f m (any_Yields m) λ a _. h a

  read-Yields :
      {A B : Type 0} (P : B → Type 0) (m : Answer RuleMessage A) (read : A → Result (Option B))
      (message : A → RuleMessage)
      → ((a : A) → ReadsAs P (read a))
      → Yields P (m >>= λ a. of_result (read a) >>= λ o. required (message a) o)
  read-Yields {B = B} P m read message h =
      >>=-Yields (λ _. Unit {0}) P m _ (any_Yields m) λ a _. one (message a) (read a) (h a)
    where
      one :
          (x : RuleMessage) (r : Result (Option B))
          → ReadsAs P r
          → Yields P (of_result r >>= λ o. required x o)
      one x throws p = tt
      one x (ret none) p = tt
      one x (ret (some b)) p = p

  port_of-Yields :
      (key : Bytes) (message : RuleMessage) (value : Node)
      → Yields IsUint16 (port_of yaml env key message value)
  unfolding port_of
  port_of-Yields key message value =
      read-Yields IsUint16 (text_of yaml env key value) string2port (λ _. message)
        string2port-IsUint16

  module _ (fit : ErrnosFit env) where
    errno_of-Yields : (value : Node) → Yields InInt32 (errno_of yaml env value)
    unfolding errno_of
    errno_of-Yields value =
        read-Yields InInt32 (text_of yaml env (codes "rejectError") value) (parse_errno env)
          invalid_reject_error (parse_errno-InInt32 env fit)

    set_action-Yields :
        (rule : Rule) (key : Bytes) (value : Node)
        → InTypes rule
        → Yields InTypes (set_action yaml env rule key value)
    unfolding set_action
    set_action-Yields rule key value t = ground (arith, errno_of-Yields value)

    set_match-Yields :
        (rule : Rule) (key : Bytes) (value : Node) (more : Answer RuleMessage Rule)
        → InTypes rule
        → Yields InTypes more
        → Yields InTypes (set_match yaml env rule key value more)
    unfolding set_match
    set_match-Yields rule key value more t h =
        if_Yields InTypes (bytes_eq key (codes "direction")) _ _
          (plain_field (direction_at yaml env value) (λ dir. record rule { direction = some dir })
            (λ dir. ground arith))
          (if_Yields InTypes (bytes_eq key (codes "type")) _ _
            (plain_field (type_at yaml env value) (λ type. record rule { type = some type })
              (λ type. ground arith))
            (if_Yields InTypes (bytes_eq key (codes "address")) _ _
              (plain_field (text_of yaml env key value)
                (λ addr. record rule { address = some addr }) (λ addr. ground arith))
              (if_Yields InTypes (bytes_eq key (codes "port")) _ _
                (assign-Yields IsUint16 InTypes (λ port. record rule { port = some port })
                  (port_of yaml env key port_out_of_range value)
                  (port_of-Yields key port_out_of_range value) (λ port small. ground arith))
                (if_Yields InTypes (bytes_eq key (codes "portEnd")) _ _
                  (assign-Yields IsUint16 InTypes (λ port. record rule { port_end = some port })
                    (port_of yaml env key port_end_out_of_range value)
                    (port_of-Yields key port_end_out_of_range value) (λ port small. ground arith))
                  h))))

    set_key-Yields :
        (rule : Rule) (key : Bytes) (value : Node)
        → InTypes rule
        → Yields InTypes (set_key yaml env rule key value)
    unfolding set_key
    set_key-Yields rule key value t =
        set_match-Yields rule key value (set_action yaml env rule key value) t
          (set_action-Yields rule key value t)

    set_keys-Yields :
        (rule : Rule) (entries : List (Node × Node))
        → InTypes rule
        → Yields InTypes (set_keys yaml env rule entries)
    unfolding set_keys
    set_keys-Yields rule [] t = t
    set_keys-Yields rule ((first, second) ∷ rest) t =
        elim_Yields InTypes (yaml.as_string first) escapes _ tt λ key.
          >>=-Yields InTypes InTypes (set_key yaml env rule key second) _
            (set_key-Yields rule key second t) λ rule' u. set_keys-Yields rule' rest u

    check_rule-Yields :
        (rule : Rule) → InTypes rule → Yields (IsSoundRule env) (check_rule yaml env rule)
    unfolding check_rule
    check_rule-Yields rule t = checked (validate_rule env rule) refl
      where
        checked :
            (o : Option RuleError)
            → validate_rule env rule ≡ o
            → Yields (IsSoundRule env) (elim o as (λ _. Answer RuleMessage Rule) [
              | none ↦ yields rule
              | some errmsg ↦ complains (invalid_rule errmsg)
            ])
        checked none e = ((validate_rule_iff env rule).0 e, t)
        checked (some errmsg) e = tt

    parse_rule-Yields : (doc : Node) → Yields (IsSoundRule env) (parse_rule yaml env doc)
    unfolding parse_rule
    parse_rule-Yields doc =
        >>=-Yields InTypes (IsSoundRule env) (set_keys yaml env default_rule (yaml.entries doc))
          (check_rule yaml env)
          (set_keys-Yields default_rule (yaml.entries doc)
            (record { port_range = tt; port_end_range = tt; errno_range = tt }))
          check_rule-Yields

    parse_from-Yields :
        (n : ℕ) (nodes : List Node) → Yields (All (IsSoundRule env)) (parse_from yaml env n nodes)
    unfolding parse_from
    parse_from-Yields n [] = tt
    parse_from-Yields n (node ∷ nodes) =
        >>=-Yields (IsSoundRule env) (All (IsSoundRule env))
          (at_rule yaml env n (parse_rule yaml env node)) _
          (numbered (parse_rule yaml env node) (parse_rule-Yields node))
          λ rule h.
            >>=-Yields (All (IsSoundRule env)) (All (IsSoundRule env))
              (parse_from yaml env (suc n) nodes) _ (parse_from-Yields (suc n) nodes)
              λ rules hs. (h, hs)
      where
        numbered :
            (m : Answer RuleMessage Rule)
            → Yields (IsSoundRule env) m
            → Yields (IsSoundRule env) (at_rule yaml env n m)
        numbered (yields rule) h = h
        numbered (complains message) h = tt
        numbered escapes h = tt

    parse_document-Yields :
        (loaded : Loaded Node) → Yields (All (IsSoundRule env)) (parse_document yaml env loaded)
    unfolding parse_document
    parse_document-Yields parser_exception = tt
    parse_document-Yields bad_file = tt
    parse_document-Yields (document doc) =
        if_Yields (All (IsSoundRule env)) (is_sequence (yaml.node_type doc)) _ _
          (parse_from-Yields 0 (yaml.elements doc)) tt

    -- Every rule that `parse_rules` yields is valid, and its numbers fit their fields, whatever
    -- the nodes of the document are.
    pub parse_rules-Yields :
        (load_file load : Bytes → Loaded Node) (content : Bytes) (content_is_filename : Bool)
        → Yields
            (All (IsSoundRule env))
            (parse_rules yaml env load_file load content content_is_filename)
    unfolding parse_rules
    parse_rules-Yields load_file load content true = parse_document-Yields (load_file content)
    parse_rules-Yields load_file load content false = parse_document-Yields (load content)
