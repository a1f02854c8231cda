-- ===== src/RuleParser/InTypes.antt =====
-- The numbers that the parsers read fit the fields of a rule.
use ip2unix.Base.{Option, arith, none, refl, some, ℕ, ◌<◌, ◌^◌, ◌≡◌}
use ip2unix.Base.Text.{Bytes}
use ip2unix.Base.Integer.{InInt32, ℤ}
use ip2unix.RuleParser.Result.{Environment, Result, ret, throws}
use ip2unix.RuleParser.Port.{parse_errno, string2port}
use ip2unix.Rules.{Rule}
use ip2unix.Serial.Record.RoundTrip.{InTypes}
use ip2unix.RuleParser.Validate.Sound.{IsValidRule}
use ip2unix.RuleParser.Port.Range.{string2port_iff}

-- A postcondition on a number that a text may be read as.
abbrev pub ReadsAs {ℓ} : {A : Type ℓ} → (A → Type 0) → Result (Option A) → Type 0
ReadsAs P (ret (some a)) = P a
ReadsAs P (ret none) = Unit
ReadsAs P throws = Unit

-- A rule that is valid, and whose numbers fit their fields.
abbrev pub IsSoundRule : Environment → Rule → Type 0
IsSoundRule env rule = IsValidRule env rule × InTypes rule

abbrev pub IsUint16 : ℕ → Type 0
IsUint16 n = n < 2 ^ 16

-- The generated table of error names has values of an `int`.
abbrev pub ErrnosFit : Environment → Type 0
ErrnosFit env = (name : Bytes) (e : ℤ) → env.name2errno name ≡ some e → InInt32 e

pub string2port-IsUint16 : (str : Bytes) → ReadsAs IsUint16 (string2port str)
string2port-IsUint16 str = fits (string2port str) refl
  where
    fits : (r : Result (Option ℕ)) → string2port str ≡ r → ReadsAs IsUint16 r
    fits (ret (some n)) e = let p = (string2port_iff str n).0 e in omega (arith, p.small)
    fits (ret none) e = tt
    fits throws e = tt

pub parse_errno-InInt32 :
    (env : Environment) → ErrnosFit env → (str : Bytes) → ReadsAs InInt32 (parse_errno env str)
unfolding parse_errno
parse_errno-InInt32 env fit str = ground (arith, named (env.name2errno str) refl)
  where
    named : (o : Option ℤ) → env.name2errno str ≡ o → ReadsAs InInt32 (ret o)
    named none e = tt
    named (some n) e = fit str n e
