-- ===== src/Serial/Scalar/Progress.antt =====
-- Each scalar's reader takes at least one byte of the stream whenever it returns a value.
use ip2unix.Base.{
  Bool, Option, [], arith, if◌then◌else◌, length, none, some, ℕ, ◌*◌, ◌++◌, ◌+◌, ◌-◌, ◌==◌, ◌∷◌,
  ◌≤◌,
}
use ip2unix.Base.Text.{Bytes}
use ip2unix.Base.Decimal.{read_digits}
use ip2unix.Serial.Stream.{Consumes, Shrinks}
use ip2unix.Serial.Scalar.Strings.{deserialise_string_lem, read_string}
use ip2unix.Serial.Scalar.{
  deserialise_bool, deserialise_int, deserialise_rule_dir, deserialise_socket_type,
  deserialise_string, deserialise_unsigned, expect_ampersand, extract_int, extract_number,
  extract_unsigned, read_sign, skip_space,
}

string_onto-Shrinks : (s out : Bytes) → Shrinks (length s) (read_string out s)
unfolding read_string
string_onto-Shrinks [] out = tt
string_onto-Shrinks (c ∷ []) out = ground arith
string_onto-Shrinks (c ∷ d ∷ rest) out = ground (
  arith,
  string_onto-Shrinks rest (out ++ (if d == b'@' then 0 else d) ∷ []),
  string_onto-Shrinks (d ∷ rest) (out ++ c ∷ []),
)

pub string-Consumes : Consumes deserialise_string
string-Consumes s = rw (deserialise_string_lem s) (string_onto-Shrinks s [])

pub bool-Consumes : Consumes deserialise_bool
unfolding deserialise_bool
bool-Consumes [] = ground arith
bool-Consumes (c ∷ s) = ground arith

pub rule_dir-Consumes : Consumes deserialise_rule_dir
unfolding deserialise_rule_dir
rule_dir-Consumes [] = ground arith
rule_dir-Consumes (c ∷ s) = ground arith

pub socket_type-Consumes : Consumes deserialise_socket_type
unfolding deserialise_socket_type
socket_type-Consumes [] = ground arith
socket_type-Consumes (c ∷ s) = ground arith

skip_space-le : (s : Bytes) → length (skip_space s) ≤ length s
unfolding skip_space
skip_space-le [] = omega arith
skip_space-le (c ∷ s) = ground (arith, skip_space-le s)

read_sign-le : (s : Bytes) → length (read_sign s).1 ≤ length s
unfolding read_sign
read_sign-le [] = omega arith
read_sign-le (c ∷ s) = ground arith

read_digits-le : (s : Bytes) (acc : ℕ) → length (read_digits acc s).1 ≤ length s
unfolding read_digits
read_digits-le [] acc = omega arith
read_digits-le (c ∷ s) acc = ground (arith, read_digits-le s (acc * 10 + (c - b'0')))

-- What an integer leaves is no longer than the stream.
abbrev Leaves {ℓ} : {A : Type ℓ} → ℕ → Option (A × Bytes) → Type 0
Leaves n none = Unit
Leaves n (some (a, rest)) = length rest ≤ n

abbrev number_rest : Option (Bool × ℕ × Bytes) → Bytes
number_rest none = []
number_rest (some (negative, n, rest)) = rest

extract_number-le : (s : Bytes) → length (number_rest (extract_number s)) ≤ length s
unfolding extract_number
extract_number-le s = ground (
  arith,
  skip_space-le s,
  read_sign-le (skip_space s),
  read_digits-le (read_sign (skip_space s)).1 0,
)

expect_ampersand-Shrinks {ℓ} :
    {A : Type ℓ} (n : ℕ) (o : Option (A × Bytes)) → Leaves n o → Shrinks n (expect_ampersand o)
expect_ampersand-Shrinks n none h = tt
expect_ampersand-Shrinks n (some (a, [])) h = ground arith
expect_ampersand-Shrinks n (some (a, c ∷ rest)) h = ground arith

extract_unsigned-Leaves : (bits : ℕ) (s : Bytes) → Leaves (length s) (extract_unsigned bits s)
unfolding extract_unsigned
extract_unsigned-Leaves bits s = ground (arith, extract_number-le s)

extract_int-Leaves : (s : Bytes) → Leaves (length s) (extract_int s)
unfolding extract_int
extract_int-Leaves s = ground (arith, extract_number-le s)

pub unsigned-Consumes : (bits : ℕ) → Consumes (deserialise_unsigned bits)
unfolding deserialise_unsigned
unsigned-Consumes bits s =
    expect_ampersand-Shrinks (length s) (extract_unsigned bits s) (extract_unsigned-Leaves bits s)

pub int-Consumes : Consumes deserialise_int
unfolding deserialise_int
int-Consumes s = expect_ampersand-Shrinks (length s) (extract_int s) (extract_int-Leaves s)
