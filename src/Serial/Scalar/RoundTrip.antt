-- ===== src/Serial/Scalar/RoundTrip.antt =====
-- What a scalar's `serialise` writes, its `deserialise` reads back, whatever follows.
use ip2unix.Base.{
  [], append-nil, append_assoc, arith, false, refl, some, suc, true, ℕ, ◌++◌, ◌<◌, ◌^◌, ◌∙◌, ◌∷◌,
  ◌≡◌,
}
use ip2unix.Base.Text.{Bytes}
use ip2unix.Base.Decimal.{decimal, decimal_starts, read_digits-decimal, starts_with_digit}
use ip2unix.Base.Integer.{InInt32, negsuc, pos}
use ip2unix.Rules.{incoming, invalid, outgoing, tcp, udp}
use ip2unix.Serial.Stream.{RoundTrips, ok}
use ip2unix.Serial.Scalar.Strings.{deserialise_string_lem, read_string}
use ip2unix.Serial.Scalar.{
  deserialise_bool, deserialise_int, deserialise_rule_dir, deserialise_socket_type,
  deserialise_string, deserialise_unsigned, extract_int, extract_number, extract_unsigned,
  read_sign, serialise_bool, serialise_char, serialise_chars, serialise_int, serialise_rule_dir,
  serialise_socket_type, serialise_string, serialise_unsigned, skip_space,
}

read_string-char :
    (c : ℕ) (out rest : Bytes)
    → read_string out (serialise_char c ++ rest) ≡ read_string (out ++ c ∷ []) rest
unfolding read_string serialise_char
read_string-char c out [] = ground arith
read_string-char c out (d ∷ rest) = ground arith

read_string-chars :
    (str out rest : Bytes)
    → read_string out (serialise_chars str ++ b'&' ∷ rest) ≡ ok (out ++ str) rest
unfolding serialise_chars
read_string-chars [] out rest = rw append-nil (unfold read_string in ground arith)
read_string-chars (c ∷ str) out rest =
    rw (append_assoc, read_string-char)
      (rw (read_string-chars str (out ++ c ∷ []) rest, append_assoc))

abbrev pub Any {ℓ} : {A : Type ℓ} → A → Type 0
Any a = Unit

pub string-RoundTrips : RoundTrips Any serialise_string deserialise_string
unfolding serialise_string
string-RoundTrips str rest _ =
    rw append_assoc (deserialise_string_lem _ ∙ read_string-chars str [] rest)

pub bool-RoundTrips : RoundTrips Any serialise_bool deserialise_bool
unfolding serialise_bool deserialise_bool
bool-RoundTrips true rest _ = refl
bool-RoundTrips false rest _ = refl

pub rule_dir-RoundTrips : RoundTrips Any serialise_rule_dir deserialise_rule_dir
unfolding serialise_rule_dir deserialise_rule_dir
rule_dir-RoundTrips incoming rest _ = refl
rule_dir-RoundTrips outgoing rest _ = refl

pub socket_type-RoundTrips : RoundTrips Any serialise_socket_type deserialise_socket_type
unfolding serialise_socket_type deserialise_socket_type
socket_type-RoundTrips tcp rest _ = refl
socket_type-RoundTrips udp rest _ = refl
socket_type-RoundTrips invalid rest _ = refl

-- A digit is no white space and no sign.
digit_first :
    (s : Bytes) → starts_with_digit s ≡ true → (skip_space s ≡ s) × (read_sign s ≡ (false, s))
unfolding skip_space read_sign
digit_first [] h = cc
digit_first (c ∷ s) h = (ground arith, ground arith)

extract_number-decimal :
    (n : ℕ) (rest : Bytes)
    → starts_with_digit rest ≡ false
    → extract_number (decimal n ++ rest) ≡ some (false, n, rest)
unfolding extract_number
extract_number-decimal n rest h =
    let d = digit_first (decimal n ++ rest) (decimal_starts n rest) in
    rw (d.0, d.1, read_digits-decimal n rest h, decimal_starts n rest)

extract_number-minus :
    (n : ℕ) (rest : Bytes)
    → starts_with_digit rest ≡ false
    → extract_number (b'-' ∷ (decimal n ++ rest)) ≡ some (true, n, rest)
unfolding extract_number skip_space read_sign
extract_number-minus n rest h = rw (read_digits-decimal n rest h, decimal_starts n rest)

pub unsigned-RoundTrips :
    (bits : ℕ) → RoundTrips (λ n. n < 2 ^ bits) serialise_unsigned (deserialise_unsigned bits)
unfolding serialise_unsigned deserialise_unsigned extract_unsigned
unsigned-RoundTrips bits n rest h =
    ground (
      arith,
      append_assoc (decimal n) (b'&' ∷ []) rest,
      extract_number-decimal n (b'&' ∷ rest) refl,
    )

pub int-RoundTrips : RoundTrips InInt32 serialise_int deserialise_int
unfolding serialise_int deserialise_int extract_int
int-RoundTrips (pos n) rest h =
    ground (
      arith,
      append_assoc (decimal n) (b'&' ∷ []) rest,
      extract_number-decimal n (b'&' ∷ rest) refl,
    )
int-RoundTrips (negsuc n) rest h = ground (
  arith,
  append_assoc (decimal (suc n)) (b'&' ∷ []) rest,
  extract_number-minus (suc n) (b'&' ∷ rest) refl,
)
