-- ===== src/RuleParser/Arg/Valid.antt =====
-- What `parse_rule_arg` returns has passed `validate_rule`.
use ip2unix.Base.{Bool, [], arith, false, if◌then◌else◌, none, true, ◌&&◌, ◌==◌, ◌∷◌, ◌≡◌}
use ip2unix.Base.Text.{Bytes}
use ip2unix.Rules.{Rule}
use ip2unix.RuleParser.Result.{Environment, Result, ret, throws}
use ip2unix.RuleParser.Validate.{validate_rule}
use ip2unix.RuleParser.Validate.Sound.{IsValidRule, validate_rule_iff}
use ip2unix.RuleParser.Arg.{
  ArgState, Parsed, Update, end_item, finish_item, finish_rule, initial, is_escaped, is_value, keep,
  next_item, parse_rule_arg, parsed, plain_step, push, refuse, refused, scan,
}

-- The rule that was returned, if one was, has no complaint.
abbrev NoComplaint : Environment → Result Parsed → Type 0
NoComplaint env (ret (parsed rule)) = validate_rule env rule ≡ none
NoComplaint env (ret (refused e)) = Unit
NoComplaint env throws = Unit

finish_rule-NoComplaint :
    (env : Environment) (rule : Rule) → NoComplaint env (ret (finish_rule env rule))
unfolding finish_rule
finish_rule-NoComplaint env rule = ground arith

end_item-NoComplaint :
    (env : Environment) (u : Result Update) (k : Rule → Result Parsed)
    → ((rule : Rule) → NoComplaint env (k rule))
    → NoComplaint env (end_item u k)
end_item-NoComplaint env (ret (keep rule)) k h = h rule
end_item-NoComplaint env (ret (refuse e)) k h = tt
end_item-NoComplaint env throws k h = tt

if-NoComplaint :
    (env : Environment) (b : Bool) (x y : Result Parsed)
    → NoComplaint env x
    → NoComplaint env y
    → NoComplaint env (if b then x else y)
if-NoComplaint env true x y hx hy = hx
if-NoComplaint env false x y hx hy = hy

scan-NoComplaint :
    (env : Environment) (arg : Bytes) (s : ArgState) → NoComplaint env (scan env s arg)
unfolding scan
scan-NoComplaint env [] s =
    end_item-NoComplaint env (finish_item env s s.key) _ (finish_rule-NoComplaint env)
scan-NoComplaint env (c ∷ []) s =
    if-NoComplaint env (c == b',') _ _
      (end_item-NoComplaint env (finish_item env s s.key) _
        λ rule. scan-NoComplaint env [] (next_item s rule))
      (scan-NoComplaint env [] (plain_step s c))
scan-NoComplaint env (c ∷ d ∷ arg) s =
    if-NoComplaint env (c == b',') _ _
      (end_item-NoComplaint env (finish_item env s s.key) _
        λ rule. scan-NoComplaint env (d ∷ arg) (next_item s rule))
      (if-NoComplaint env (is_value s.key && is_escaped c d) _ _
        (scan-NoComplaint env arg (push s d 2)) (scan-NoComplaint env (d ∷ arg) (plain_step s c)))

-- A rule that the command line parser returns is valid.
pub parse_rule_arg-IsValidRule :
    (env : Environment) (arg : Bytes) {rule : Rule}
    → parse_rule_arg env arg ≡ ret (parsed rule)
    → IsValidRule env rule
unfolding parse_rule_arg
parse_rule_arg-IsValidRule env arg {rule} e =
    (validate_rule_iff env rule).0 (rw e at (scan-NoComplaint env arg initial))
