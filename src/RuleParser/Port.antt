-- ===== src/RuleParser/Port.antt =====
-- `string2port` and `parse_errno`: numbers from text.
pub mod Range
use ip2unix.Base.{
  Bool, Option, [], false, if◌then◌else◌, leb, length, ltb, none, not, some, true, ℕ, ◌%◌, ◌&&◌,
  ◌==◌, ◌^◌, ◌∷◌,
}
use ip2unix.Base.Text.{Bytes}
use ip2unix.Base.Decimal.{is_digit, value}
use ip2unix.Base.Integer.{pos, ℤ}
use ip2unix.RuleParser.Result.{Environment, Result, ret, throws, ◌>>=◌}

-- `std::all_of(…, isdigit)`.
unfoldable pub all_digits : Bytes → Bool
all_digits [] = true
all_digits (c ∷ s) = is_digit c && all_digits s

-- `value.erase(0, str.find_first_not_of('0'))`.
unfoldable pub strip_zeros : Bytes → Bytes
strip_zeros [] = []
strip_zeros (c ∷ s) = let stripped = strip_zeros s in if c == b'0' then stripped else c ∷ s

abbrev pub is_empty : Bytes → Bool
is_empty [] = true
is_empty (c ∷ s) = false

-- `std::stoul` of digits into a `uint32_t`: 64 bits are read, or an exception is thrown, and the
-- lower 32 are kept.
unfoldable pub stoul32 : Bytes → Result ℕ
stoul32 digits = let n = value 0 digits in if ltb n (2 ^ 64) then ret (n % 2 ^ 32) else throws

-- The length and bound tests behind the conversion.
unfoldable pub checked_stoul : Bytes → Result (Option ℕ)
unfolding stoul32
checked_stoul stripped = stoul32 stripped >>= λ intval.
    ret (if leb (length stripped) 6 && leb intval 65535 then some intval else none)

-- The tests on the text without its leading zeros.
unfoldable pub stripped_port : Bytes → Bytes → Result (Option ℕ)
unfolding all_digits
stripped_port str stripped =
    if not (is_empty str) && is_empty stripped
    then ret (some 0)
    else if is_empty stripped
    then ret none
    else if all_digits stripped
    then checked_stoul stripped
    else ret none

unfoldable pub string2port : Bytes → Result (Option ℕ)
unfolding stripped_port strip_zeros checked_stoul
string2port str = stripped_port str (strip_zeros str)

-- `std::stoi` of digits.
unfoldable pub stoi : Bytes → Result ℤ
stoi digits = let n = value 0 digits in if leb n 2147483647 then ret (pos n) else throws

unfoldable pub parse_errno : Environment → Bytes → Result (Option ℤ)
unfolding stoi all_digits
parse_errno env str =
    if is_empty str
    then ret none
    else if all_digits str
    then (stoi str >>= λ n. ret (some n))
    else ret (env.name2errno str)
