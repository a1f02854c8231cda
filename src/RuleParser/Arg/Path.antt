-- ===== src/RuleParser/Arg/Path.antt =====
-- Socket paths on the command line: a comma or backslash is written behind a backslash.
use ip2unix.Base.{
  Bool, Bool-cases, [], ap, append-nil, append_assoc, arith, false, if◌then◌else◌, inl, inr, length,
  refl, some, sym, true, ℕ, ◌++◌, ◌+◌, ◌==◌, ◌||◌, ◌∙◌, ◌∷◌, ◌≡◌,
}
use ip2unix.Base.Text.{Bytes, bytes_eq, codes}
use ip2unix.Rules.{default_rule}
use ip2unix.RuleParser.Result.{Environment, ret}
use ip2unix.RuleParser.Validate.{check_action, check_address, check_ports, validate_rule}
use ip2unix.RuleParser.Arg.{
  ArgState, backslash, initial, make_absolute, parse_rule_arg, parsed, plain_step, push, push_flag,
  scan, set_option, start_value,
}

abbrev pub is_special : ℕ → Bool
is_special c = c == b',' || c == backslash

abbrev pub escape_char : ℕ → Bytes
escape_char c = if is_special c then backslash ∷ c ∷ [] else c ∷ []

-- A path as it is written in a rule.
pub escape : Bytes → Bytes
escape [] = []
escape (c ∷ path) = escape_char c ++ escape path

scan-special :
    (env : Environment) (s : ArgState) (key : Bytes) (c : ℕ) (rest : Bytes)
    → s.key ≡ some key
    → is_special c ≡ true
    → scan env s (backslash ∷ c ∷ rest) ≡ scan env (push s c 2) rest
unfolding scan
scan-special env s key c rest k h = rw k (ground arith)

plain_step-push :
    (s : ArgState) (key : Bytes) (c : ℕ) → s.key ≡ some key → plain_step s c ≡ push s c 1
plain_step-push s key c k = ground arith

scan-plain :
    (env : Environment) (s : ArgState) (key : Bytes) (c : ℕ) (rest : Bytes)
    → s.key ≡ some key
    → is_special c ≡ false
    → scan env s (c ∷ rest) ≡ scan env (push s c 1) rest
unfolding scan
scan-plain env s key c [] k h = ground (arith, plain_step-push s key c k)
scan-plain env s key c (d ∷ rest) k h = ground arith

-- The state behind a text of `width` characters that stands for `text`.
abbrev reading : ArgState → Bytes → ℕ → ArgState
reading s text width = record s { buf = s.buf ++ text; index = s.index + width }

reading_nothing : (s : ArgState) → reading s [] 0 ≡ s
reading_nothing s = ground (arith, append-nil s.buf)

reading_more :
    (s : ArgState) (c w width total : ℕ) (text : Bytes)
    → w + width ≡ total
    → reading (push s c w) text width ≡ reading s (c ∷ text) total
reading_more s c w width total text e = ground (arith, append_assoc s.buf (c ∷ []) text)

-- A value that is written with `escape` is read back.
pub scan-escape :
    (env : Environment) (path : Bytes) (s : ArgState) (key rest : Bytes)
    → s.key ≡ some key
    → scan env s (escape path ++ rest) ≡ scan env (reading s path (length (escape path))) rest
unfolding escape
scan-escape env [] s key rest k = ap (λ t. scan env t rest) (sym (reading_nothing s))
scan-escape env (c ∷ path) s key rest k = elim (Bool-cases (is_special c)) [
  | inl special ↦ rw special (
      scan-special env s key c (escape path ++ rest) k special
      ∙ scan-escape env path (push s c 2) key rest k
      ∙ ap (λ t. scan env t rest) (reading_more s c 2 (length (escape path)) _ path (omega arith)))
  | inr plain ↦ rw plain (
      scan-plain env s key c (escape path ++ rest) k plain
      ∙ scan-escape env path (push s c 1) key rest k
      ∙ ap (λ t. scan env t rest) (reading_more s c 1 (length (escape path)) _ path (omega arith)))
]

-- `path=` with an absolute path, escaped, is the rule that has this socket path and nothing else.
pub parse_rule_arg-escape :
    (env : Environment) (path : Bytes)
    → parse_rule_arg env (codes "path=" ++ escape (b'/' ∷ path))
      ≡ ret (parsed (record default_rule { socket_path = some (b'/' ∷ path) }))
unfolding parse_rule_arg scan escape set_option make_absolute bytes_eq validate_rule check_address
    check_ports check_action
parse_rule_arg-escape env path =
    let named =
      start_value (push_flag (push_flag (push_flag (push_flag initial b'p') b'a') b't') b'h') in
    rw append-nil at (scan-escape env (b'/' ∷ path) named (codes "path") [] refl)
