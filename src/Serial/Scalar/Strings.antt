-- ===== src/Serial/Scalar/Strings.antt =====
-- The loop that reads a string, as a recursion on the stream.
use ip2unix.Base.{
  Option, [], arith, if◌then◌else◌, length, none, refl, some, suc, zero, ℕ, ◌++◌, ◌+◌, ◌<◌, ◌==◌,
  ◌∷◌, ◌≡◌,
}
use ip2unix.Base.Text.{Bytes}
use ip2unix.Serial.Stream.{Parse, Reader, hang, ok}
use ip2unix.Serial.Scalar.{backslash, deserialise_string, string_rounds}

-- `out` are the bytes read so far.
unfoldable pub read_string : Bytes → Reader Bytes
read_string out [] = hang
read_string out (c ∷ []) = if c == b'&' then ok out [] else hang
read_string out (c ∷ d ∷ rest) =
    let escaped = read_string (out ++ (if d == b'@' then 0 else d) ∷ []) rest in
    let plain = read_string (out ++ c ∷ []) (d ∷ rest) in
    if c == b'&' then ok out (d ∷ rest) else if c == backslash then escaped else plain

abbrev ended : Option (Bytes × Bytes) → Parse Bytes
ended none = hang
ended (some (out, rest)) = ok out rest

-- After the end of the stream every round appends the byte 255.
past_end : (rounds : ℕ) (out : Bytes) → string_rounds rounds out [] ≡ none
unfolding string_rounds
past_end zero out = refl
past_end (suc rounds) out = past_end rounds (out ++ 255 ∷ [])

rounds-read_string :
    (rounds : ℕ) (out s : Bytes)
    → length s < rounds
    → ended (string_rounds rounds out s) ≡ read_string out s
unfolding read_string string_rounds
rounds-read_string zero out s l = absurd (omega arith)
rounds-read_string (suc rounds) out [] l = rw (past_end rounds (out ++ 255 ∷ [])) refl
rounds-read_string (suc rounds) out (c ∷ []) l =
    ground (arith, past_end rounds (out ++ 255 ∷ []), past_end rounds (out ++ c ∷ []))
rounds-read_string (suc rounds) out (c ∷ d ∷ s) l = ground (
  arith,
  rounds-read_string rounds (out ++ (if d == b'@' then 0 else d) ∷ []) s (omega arith),
  rounds-read_string rounds (out ++ c ∷ []) (d ∷ s) (omega arith),
)

pub deserialise_string_lem : (s : Bytes) → deserialise_string s ≡ read_string [] s
unfolding deserialise_string
deserialise_string_lem s = rounds-read_string (length s + 1) [] s (omega arith)
