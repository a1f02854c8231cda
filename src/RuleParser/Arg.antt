-- ===== src/RuleParser/Arg.antt =====
-- `parse_rule_arg` and `make_absolute`: one rule of the command line.
pub mod Valid
pub mod InTypes
pub mod Path
use mathlib.Core.Option
use ip2unix.Base.{
  Bool, Option, [], drop, false, if◌then◌else◌, map, none, some, suc, take, true, zero, ℕ, ◌&&◌,
  ◌++◌, ◌+◌, ◌-◌, ◌==◌, ◌||◌, ◌∷◌,
}
use ip2unix.Base.Text.{Bytes, bytes_eq, codes}
use ip2unix.Rules.{Rule, default_rule, incoming, outgoing, tcp, udp}
use ip2unix.RuleParser.Result.{Environment, Result, ret, throws, ◌>>=◌}
use ip2unix.RuleParser.Port.{parse_errno, string2port}
use ip2unix.RuleParser.Validate.{RuleError, validate_rule}

abbrev pub backslash : ℕ
backslash = 92

-- `get_current_dir_name()` in front of a relative path.
unfoldable pub make_absolute : Environment → Bytes → Bytes
make_absolute env [] = []
make_absolute env (c ∷ path) = if c == b'/' then c ∷ path else env.current_dir ++ (b'/' ∷ c ∷ path)

-- The message with the column and width of what it marks in the argument.
pub data ArgError : Type 0 where
  invalid_errno invalid_end_port invalid_port unknown_key unknown_flag : ℕ → ℕ → ArgError
  invalid_rule : RuleError → ArgError

-- A rule, or a message on the standard error and `nullopt`.
pub data Parsed : Type 0 where
  parsed : Rule → Parsed
  refused : ArgError → Parsed

-- The local variables of the loop; `index` is `i`.
pub record ArgState : Type 0 where
  pub buf : Bytes
  pub key : Option Bytes
  pub rule : Rule
  pub errpos : ℕ
  pub valpos : ℕ
  pub errlen : ℕ
  pub index : ℕ

abbrev pub initial : ArgState
initial = record {
  buf = [];
  key = none;
  rule = default_rule;
  errpos = 0;
  valpos = 0;
  errlen = 0;
  index = 0;
}

-- What one round of the loop does to the rule.
pub data Update : Type 0 where
  keep : Rule → Update
  refuse : ArgError → Update

-- `buf.find('-')`.
unfoldable pub find_dash : Bytes → Option ℕ
find_dash [] = none
find_dash (c ∷ s) = if c == b'-' then some 0 else Option.map suc (find_dash s)

-- The start port; `whole` is the width of the whole value.
set_start : Rule → ℕ → ℕ → Bytes → Result Update
set_start rule valpos whole portbuf = string2port portbuf >>= elim [
  | none ↦ ret (refuse (invalid_port valpos whole))
  | some port ↦ ret (keep (record rule { port = some port }))
]

-- Port ranges, like "1000-2000".
set_port : Rule → ℕ → ℕ → Bytes → Option ℕ → Result Update
unfolding set_start
set_port rule valpos whole buf none = set_start rule valpos whole buf
set_port rule valpos whole buf (some zero) = set_start rule valpos whole buf
set_port rule valpos whole buf (some (suc n)) = string2port (drop (suc n + 1) buf) >>= elim [
  | none ↦ ret (refuse (invalid_end_port (valpos + suc n + 1) (whole - suc n - 1)))
  | some port_end ↦
      set_start (record rule { port_end = some port_end }) valpos whole (take (suc n) buf)
]

set_errno : Environment → Rule → ℕ → ℕ → Bytes → Result Update
set_errno env rule valpos whole buf = parse_errno env buf >>= elim [
  | none ↦ ret (refuse (invalid_errno valpos whole))
  | some rej_errno ↦ ret (keep (record rule { reject = true; reject_errno = some rej_errno }))
]

-- `key=value` options, at their end.
unfoldable pub set_option : Environment → ArgState → Bytes → Result Update
unfolding set_port set_errno make_absolute bytes_eq find_dash string2port parse_errno
set_option env s key =
    if bytes_eq key (codes "path")
    then ret (keep (record (s.rule) { socket_path = some (make_absolute env s.buf) }))
    else if bytes_eq key (codes "systemd")
    then ret (keep (record (s.rule) { socket_activation = true; fd_name = some s.buf }))
    else if bytes_eq key (codes "reject")
    then set_errno env s.rule s.valpos (s.index - s.valpos) s.buf
    else if bytes_eq key (codes "addr") || bytes_eq key (codes "address")
    then ret (keep (record (s.rule) { address = some s.buf }))
    else if bytes_eq key (codes "port")
    then set_port s.rule s.valpos (s.index - s.valpos) s.buf (find_dash s.buf)
    else ret (refuse (unknown_key s.errpos s.errlen))

-- Bareword toggle flags, at their end.
unfoldable pub set_flag : ArgState → Update
unfolding bytes_eq
set_flag s =
    if bytes_eq s.buf (codes "tcp")
    then keep (record (s.rule) { type = some tcp })
    else if bytes_eq s.buf (codes "udp")
    then keep (record (s.rule) { type = some udp })
    else if bytes_eq s.buf (codes "in")
    then keep (record (s.rule) { direction = some incoming })
    else if bytes_eq s.buf (codes "out")
    then keep (record (s.rule) { direction = some outgoing })
    else if bytes_eq s.buf (codes "systemd")
    then keep (record (s.rule) { socket_activation = true })
    else if bytes_eq s.buf (codes "reject")
    then keep (record (s.rule) { reject = true })
    else if bytes_eq s.buf (codes "blackhole")
    then keep (record (s.rule) { blackhole = true })
    else if bytes_eq s.buf (codes "ignore")
    then keep (record (s.rule) { ignore = true })
    else refuse (unknown_flag s.errpos s.errlen)

-- The end of an option or a flag, at a comma or at the end of the argument.
unfoldable pub finish_item : Environment → ArgState → Option Bytes → Result Update
unfolding set_option set_flag
finish_item env s none = ret (set_flag s)
finish_item env s (some key) = set_option env s key

-- The variables behind it.
abbrev pub next_item : ArgState → Rule → ArgState
next_item s rule = record s {
  buf = [];
  key = none;
  rule = rule;
  errpos = s.index + 1;
  errlen = 0;
  index = s.index + 1;
}

unfoldable pub finish_rule : Environment → Rule → Parsed
unfolding validate_rule
finish_rule env rule = elim (validate_rule env rule) [
  | none ↦ parsed rule
  | some message ↦ refused (invalid_rule message)
]

-- `buf += arg[i]`, `width` characters of the argument used.
abbrev pub push : ArgState → ℕ → ℕ → ArgState
push s c width = record s { buf = s.buf ++ c ∷ []; index = s.index + width }

abbrev pub push_flag : ArgState → ℕ → ArgState
push_flag s c = record s { buf = s.buf ++ c ∷ []; errlen = s.errlen + 1; index = s.index + 1 }

abbrev pub start_value : ArgState → ArgState
start_value s = record s { key = some s.buf; valpos = s.index + 1; buf = []; index = s.index + 1 }

abbrev pub is_escaped : ℕ → ℕ → Bool
is_escaped c d = c == backslash && (d == b',' || d == backslash)

abbrev pub is_value : Option Bytes → Bool
is_value none = false
is_value (some key) = true

-- A character that ends nothing and is not escaped.
abbrev pub plain_step : ArgState → ℕ → ArgState
plain_step s c =
    if is_value s.key then push s c 1 else if c == b'=' then start_value s else push_flag s c

abbrev pub end_item : Result Update → (Rule → Result Parsed) → Result Parsed
end_item (ret (keep rule)) k = k rule
end_item (ret (refuse e)) k = ret (refused e)
end_item throws k = throws

-- The loop, over the characters from `arg[i]` on.
unfoldable pub scan : Environment → ArgState → Bytes → Result Parsed
unfolding finish_item finish_rule
scan env s [] = end_item (finish_item env s s.key) (λ rule. ret (finish_rule env rule))
scan env s (c ∷ []) =
    let more = scan env (plain_step s c) [] in
    if c == b','
    then end_item (finish_item env s s.key) (λ rule. scan env (next_item s rule) [])
    else more
scan env s (c ∷ d ∷ rest) =
    let escaped = scan env (push s d 2) rest in
    let more = scan env (plain_step s c) (d ∷ rest) in
    if c == b','
    then end_item (finish_item env s s.key) (λ rule. scan env (next_item s rule) (d ∷ rest))
    else if is_value s.key && is_escaped c d
    then escaped
    else more

unfoldable pub parse_rule_arg : Environment → Bytes → Result Parsed
unfolding scan
parse_rule_arg env arg = scan env initial arg
