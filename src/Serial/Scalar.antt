-- ===== src/Serial/Scalar.antt =====
-- The overloads for strings, booleans, enumerations and integers.
pub mod Strings
pub mod RoundTrip
pub mod Progress
pub mod Unterminated
use ip2unix.Base.{
  Bool, Option, [], false, if◌then◌else◌, leb, length, none, some, suc, true, zero, ℕ, ◌%◌, ◌&&◌,
  ◌++◌, ◌+◌, ◌-◌, ◌==◌, ◌^◌, ◌||◌, ◌∷◌,
}
use ip2unix.Base.Text.{Bytes}
use ip2unix.Base.Decimal.{decimal, read_digits, starts_with_digit}
use ip2unix.Base.Integer.{negsuc, pos, ℤ}
use ip2unix.Rules.{RuleDir, SocketType, incoming, invalid, outgoing, tcp, udp}
use ip2unix.Serial.Stream.{
  Parse, Reader, after_integer, bad_boolean, bad_rule_dir, bad_socket_type, err, get_char, hang, ok,
}

abbrev pub backslash : ℕ
backslash = 92

-- The `switch` on one character of a string.
unfoldable pub serialise_char : ℕ → Bytes
serialise_char c =
    if c == b'&' || c == b'!' || c == backslash
    then backslash ∷ c ∷ []
    else if c == 0
    then backslash ∷ b'@' ∷ []
    else c ∷ []

unfoldable pub serialise_chars : Bytes → Bytes
unfolding serialise_char
serialise_chars [] = []
serialise_chars (c ∷ str) = serialise_char c ++ serialise_chars str

unfoldable pub serialise_string : Bytes → Bytes
unfolding serialise_chars
serialise_string str = serialise_chars str ++ b'&' ∷ []

-- The `while` loop, for a number of rounds, with `out` the bytes appended so far; `none` if it is not
-- done by then. At the end of the stream `in.get()` goes on to return EOF.
unfoldable pub string_rounds : ℕ → Bytes → Bytes → Option (Bytes × Bytes)
string_rounds zero out s = none
string_rounds (suc rounds) out s =
    let (c, behind) = get_char s in
    let (d, rest) = get_char behind in
    let escaped = string_rounds rounds (out ++ (if d == b'@' then 0 else d) ∷ []) rest in
    let plain = string_rounds rounds (out ++ c ∷ []) behind in
    if c == b'&' then some (out, behind) else if c == backslash then escaped else plain

-- With as many rounds as the stream has bytes and one more, the loop is done or at the end of the
-- stream, where it goes on for ever. Memory is taken to be without end.
unfoldable pub deserialise_string : Reader Bytes
unfolding string_rounds
deserialise_string s = elim (string_rounds (length s + 1) [] s) [
  | none ↦ hang
  | some (out, rest) ↦ ok out rest
]

unfoldable pub serialise_bool : Bool → Bytes
serialise_bool val = (if val then b't' else b'f') ∷ []

unfoldable pub deserialise_bool : Reader Bool
deserialise_bool s =
    let (c, rest) = get_char s in
    if c == b't' then ok true rest else if c == b'f' then ok false rest else err (bad_boolean c)

unfoldable pub serialise_rule_dir : RuleDir → Bytes
serialise_rule_dir outgoing = b'o' ∷ []
serialise_rule_dir incoming = b'i' ∷ []

unfoldable pub deserialise_rule_dir : Reader RuleDir
deserialise_rule_dir s =
    let (c, rest) = get_char s in
    if c == b'o'
    then ok outgoing rest
    else if c == b'i'
    then ok incoming rest
    else err (bad_rule_dir c)

unfoldable pub serialise_socket_type : SocketType → Bytes
serialise_socket_type tcp = b't' ∷ []
serialise_socket_type udp = b'u' ∷ []
serialise_socket_type invalid = b'i' ∷ []

unfoldable pub deserialise_socket_type : Reader SocketType
deserialise_socket_type s =
    let (c, rest) = get_char s in
    if c == b't'
    then ok tcp rest
    else if c == b'u'
    then ok udp rest
    else if c == b'i'
    then ok invalid rest
    else err (bad_socket_type c)

-- Formatted output and input of integers by the standard library's streams. Input skips white
-- space, takes a sign and then digits; without a digit, or out of range, the stream fails, and each
-- later `get` returns EOF.
abbrev pub is_space : ℕ → Bool
is_space c = c == b' ' || (leb 9 c && leb c 13)

unfoldable pub skip_space : Bytes → Bytes
skip_space [] = []
skip_space (c ∷ rest) = let after = skip_space rest in if is_space c then after else c ∷ rest

unfoldable pub read_sign : Bytes → Bool × Bytes
read_sign [] = (false, [])
read_sign (c ∷ rest) =
    if c == b'-' then (true, rest) else if c == b'+' then (false, rest) else (false, c ∷ rest)

-- The sign, the digits' value and what follows; `none` if there is no digit.
unfoldable pub extract_number : Bytes → Option (Bool × ℕ × Bytes)
unfolding skip_space read_sign read_digits
extract_number s =
    let (negative, digits) = read_sign (skip_space s) in
    let (n, rest) = read_digits 0 digits in
    if starts_with_digit digits then some (negative, n, rest) else none

-- An unsigned type of `bits` bits: a minus sign negates modulo 2 ^ bits.
unfoldable pub extract_unsigned : ℕ → Bytes → Option (ℕ × Bytes)
extract_unsigned bits s = elim (extract_number s) [
  | none ↦ none
  | some (negative, n, rest) ↦
      if leb (2 ^ bits) n
      then none
      else if negative
      then some ((2 ^ bits - n) % 2 ^ bits, rest)
      else some (n, rest)
]

negate : ℕ → ℤ
negate ℕ.zero = pos 0
negate (suc n) = negsuc n

-- `int`.
unfoldable pub extract_int : Bytes → Option (ℤ × Bytes)
unfolding negate
extract_int s = elim (extract_number s) [
  | none ↦ none
  | some (negative, n, rest) ↦
      if negative
      then if leb n 2147483648 then some (negate n, rest) else none
      else if leb n 2147483647
      then some (pos n, rest)
      else none
]

-- The check behind `in >> *out`.
abbrev pub expect_ampersand {ℓ} : {A : Type ℓ} → Option (A × Bytes) → Parse A
expect_ampersand none = err (after_integer 255)
expect_ampersand (some (a, s)) =
    let (c, rest) = get_char s in if c == b'&' then ok a rest else err (after_integer c)

unfoldable pub serialise_unsigned : ℕ → Bytes
serialise_unsigned val = decimal val ++ b'&' ∷ []

unfoldable pub deserialise_unsigned : ℕ → Reader ℕ
deserialise_unsigned bits s = expect_ampersand (extract_unsigned bits s)

unfoldable pub serialise_int : ℤ → Bytes
serialise_int (pos n) = decimal n ++ b'&' ∷ []
serialise_int (negsuc n) = b'-' ∷ (decimal (suc n) ++ b'&' ∷ [])

unfoldable pub deserialise_int : Reader ℤ
deserialise_int s = expect_ampersand (extract_int s)
