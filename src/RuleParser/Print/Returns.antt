-- ===== src/RuleParser/Print/Returns.antt =====
-- Printing rules that were validated.
use ip2unix.Base.{
  All, Bool, List, Option, [], arith, false, if_cases, none, refl, some, true, ℕ, ◌+◌, ◌∷◌, ◌≡◌,
}
use ip2unix.Base.Text.{Bytes}
use ip2unix.Rules.{Rule, RuleDir}
use ip2unix.RuleParser.Result.{Environment, Result, ret, throws, ◌>>=◌}
use ip2unix.RuleParser.Validate.Sound.{ActionOk, IsValidRule}
use ip2unix.RuleParser.Print.{action_line, path_line, print_from, print_rules}

abbrev pub Returns : Result Bytes → Type 0
Returns r = (line : Bytes) × (r ≡ ret line)

bind-Returns :
    (r : Result Bytes) (f : Bytes → Result Bytes)
    → Returns r
    → ((a : Bytes) → Returns (f a))
    → Returns (r >>= f)
bind-Returns (ret a) f h k = k a
bind-Returns throws f (a, e) k = absurd cc

-- A valid rule without an action has a socket path.
path_line-Returns :
    (direction : Option RuleDir) (path : Option Bytes) (activation reject blackhole ignore : Bool)
    → ActionOk direction path activation reject blackhole ignore
    → activation ≡ false
    → reject ≡ false
    → blackhole ≡ false
    → ignore ≡ false
    → Returns (path_line path)
unfolding path_line
path_line-Returns d (some p) a r b i h ea er eb ei = (_, refl)
path_line-Returns d none a true b i h ea er eb ei = absurd (ground arith)
path_line-Returns d none true false b i h ea er eb ei = absurd (ground arith)
path_line-Returns d none false false true i h ea er eb ei = absurd (ground arith)
path_line-Returns d none false false false i h ea er eb ei = absurd (ground arith)

module _ (env : Environment) where
  action_line-Returns : (rule : Rule) → IsValidRule env rule → Returns (action_line env rule)
  unfolding action_line
  action_line-Returns rule v =
      if_cases Returns rule.socket_activation _ _ (λ _. (_, refl))
        λ ea.
          if_cases Returns rule.reject _ _ (λ _. (_, refl))
            λ er.
              if_cases Returns rule.blackhole _ _ (λ _. (_, refl))
                λ eb.
                  if_cases Returns rule.ignore _ _ (λ _. (_, refl))
                    λ ei.
                      path_line-Returns rule.direction rule.socket_path rule.socket_activation
                        rule.reject rule.blackhole rule.ignore v.action_ok ea er eb ei

  print_from-Returns :
      (position : ℕ) (rules : List Rule)
      → All (IsValidRule env) rules
      → Returns (print_from env position rules)
  unfolding print_from
  print_from-Returns position [] h = ([], refl)
  print_from-Returns position (rule ∷ rules) h =
      bind-Returns (action_line env rule) _ (action_line-Returns rule h.0) λ action.
        bind-Returns (print_from env (position + 1) rules) _
          (print_from-Returns (position + 1) rules h.1) λ rest. (_, refl)

  -- `print_rules` writes the listing of any list of rules that `validate_rule` accepts, without an
  -- exception.
  pub print_rules-Returns :
      (rules : List Rule) → All (IsValidRule env) rules → Returns (print_rules env rules)
  unfolding print_rules
  print_rules-Returns rules h = print_from-Returns 0 rules h
