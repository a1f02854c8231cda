-- ===== src/RuleParser/Port/Range.antt =====
-- `string2port` reads exactly the decimal numerals of a 16 bit number, leading zeros included.
use ip2unix.Base.{
  Bool-cases, Option, [], arith, false, if◌then◌else◌, inl, inr, leb, leb→le, length, ltb, ltb→lt,
  none, not, refl, some, sym, true, ℕ, ◌%◌, ◌&&◌, ◌*◌, ◌+◌, ◌-◌, ◌<◌, ◌==◌, ◌^◌, ◌||◌, ◌↔◌, ◌∙◌,
  ◌∷◌, ◌≡◌, ◌≢◌, ◌≤◌,
}
use ip2unix.Base.Text.{Bytes}
use ip2unix.Base.Decimal.{value}
use ip2unix.RuleParser.Result.{Result, ret, throws}
use ip2unix.RuleParser.Port.{
  all_digits, checked_stoul, is_empty, string2port, strip_zeros, stripped_port,
}

all_digits-strip_zeros : (str : Bytes) → all_digits (strip_zeros str) ≡ all_digits str
unfolding all_digits strip_zeros
all_digits-strip_zeros [] = refl
all_digits-strip_zeros (c ∷ s) = ground (arith, all_digits-strip_zeros s)

value-strip_zeros : (str : Bytes) → value 0 (strip_zeros str) ≡ value 0 str
unfolding value strip_zeros
value-strip_zeros [] = refl
value-strip_zeros (c ∷ s) = ground (arith, value-strip_zeros s)

value-ge : (xs : Bytes) (acc : ℕ) → acc ≤ value acc xs
unfolding value
value-ge [] acc = omega arith
value-ge (x ∷ xs) acc = omega (arith, value-ge xs (acc * 10 + (x - b'0')))

abbrev StartsNonzero : Bytes → Type 0
StartsNonzero [] = Unit
StartsNonzero (c ∷ s) = c ≢ b'0'

strip_zeros-StartsNonzero : (str : Bytes) → StartsNonzero (strip_zeros str)
unfolding strip_zeros
strip_zeros-StartsNonzero [] = tt
strip_zeros-StartsNonzero (c ∷ s) = elim (Bool-cases (c == b'0')) [
  | inl zero_digit ↦ rw (zero_digit, StartsNonzero) (strip_zeros-StartsNonzero s)
  | inr other ↦ rw (other, StartsNonzero) (ground arith)
]

-- Seven digits and more, the first of them not 0, stand for a million at least.
long_value :
    (s : Bytes) → all_digits s ≡ true → StartsNonzero s → 6 < length s → 1000000 ≤ value 0 s
unfolding value all_digits
long_value [] h k l = absurd (omega arith)
long_value (a ∷ []) h k l = absurd (omega arith)
long_value (a ∷ b ∷ []) h k l = absurd (omega arith)
long_value (a ∷ b ∷ c ∷ []) h k l = absurd (omega arith)
long_value (a ∷ b ∷ c ∷ d ∷ []) h k l = absurd (omega arith)
long_value (a ∷ b ∷ c ∷ d ∷ e ∷ []) h k l = absurd (omega arith)
long_value (a ∷ b ∷ c ∷ d ∷ e ∷ f ∷ []) h k l = absurd (omega arith)
long_value (a ∷ b ∷ c ∷ d ∷ e ∷ f ∷ g ∷ r) h k l =
    let first : b'0' < a = ground arith in omega (arith, value-ge r _)

-- One more than the largest number that a text of this length can stand for behind `m - 1`.
abbrev scale : ℕ → Bytes → ℕ
scale m [] = m
scale m (x ∷ xs) = scale (m * 10) xs

value-lt-scale :
    (xs : Bytes) (acc m : ℕ) → all_digits xs ≡ true → acc < m → value acc xs < scale m xs
unfolding value all_digits
value-lt-scale [] acc m h l = l
value-lt-scale (x ∷ xs) acc m h l =
    let tail_digits : all_digits xs ≡ true = ground arith in
    let low : x ≤ b'9' = ground arith in
    value-lt-scale xs (acc * 10 + (x - b'0')) (m * 10) tail_digits (omega arith)

scale-le : (s : Bytes) → length s ≤ 6 → scale 1 s ≤ 1000000
scale-le [] l = omega arith
scale-le (a ∷ []) l = omega arith
scale-le (a ∷ b ∷ []) l = omega arith
scale-le (a ∷ b ∷ c ∷ []) l = omega arith
scale-le (a ∷ b ∷ c ∷ d ∷ []) l = omega arith
scale-le (a ∷ b ∷ c ∷ d ∷ e ∷ []) l = omega arith
scale-le (a ∷ b ∷ c ∷ d ∷ e ∷ f ∷ []) l = omega arith
scale-le (a ∷ b ∷ c ∷ d ∷ e ∷ f ∷ g ∷ r) l = absurd (omega arith)

-- At most six digits stand for less than a million.
short_value : (s : Bytes) → all_digits s ≡ true → length s ≤ 6 → value 0 s < 1000000
short_value s h l = omega (arith, value-lt-scale s 0 1 h (omega arith), scale-le s l)

-- What a port is: a numeral, possibly with leading zeros, of a 16 bit number.
pub record IsPort (str : Bytes) (n : ℕ) : Type 0 where
  pub nonempty : is_empty str ≡ false
  pub digits : all_digits str ≡ true
  pub number : value 0 str ≡ n
  pub small : n ≤ 65535

-- The numeral of what `strip_zeros` leaves, tested as the code tests it.
checked_port :
    (s : Bytes)
    → all_digits s ≡ true
    → StartsNonzero s
    → value 0 s < 2 ^ 64
    → (leb (length s) 6 && leb (value 0 s % 2 ^ 32) 65535) ≡ leb (value 0 s) 65535
checked_port s h k l = elim (Bool-cases (leb (length s) 6)) [
  | inl short ↦ rw short (let small = short_value s h (leb→le (length s) 6 short) in ground arith)
  | inr long ↦ rw long (let large = long_value s h k (ground arith) in ground arith)
]

-- What `string2port` means, with no stripping and no length test.
abbrev port_result : Bytes → Result (Option ℕ)
port_result str =
    if is_empty str || not (all_digits str)
    then ret none
    else if ltb (value 0 str) (2 ^ 64)
    then ret (if leb (value 0 str) 65535 then some (value 0 str) else none)
    else throws

checked_stoul_lem :
    (s : Bytes)
    → all_digits s ≡ true
    → StartsNonzero s
    → checked_stoul s ≡ (
        if ltb (value 0 s) (2 ^ 64)
        then ret (if leb (value 0 s) 65535 then some (value 0 s) else none)
        else throws)
unfolding checked_stoul
checked_stoul_lem s h k = elim (Bool-cases (ltb (value 0 s) (2 ^ 64))) [
  | inl fits ↦ rw fits (rw (checked_port s h k (ltb→lt (value 0 s) (2 ^ 64) fits)) (ground arith))
  | inr large ↦ rw large
]

stripped_port_lem :
    (str t : Bytes)
    → all_digits t ≡ all_digits str
    → value 0 t ≡ value 0 str
    → StartsNonzero t
    → is_empty str ≡ false
    → stripped_port str t ≡ port_result str
unfolding stripped_port
stripped_port_lem str [] d v s e = unfold all_digits value in ground arith
stripped_port_lem str (c ∷ t) d v s e = elim (Bool-cases (all_digits (c ∷ t))) [
  | inl digits ↦ rw (digits, e, checked_stoul_lem (c ∷ t) digits s, v, sym d ∙ digits)
  | inr other ↦ rw (other, e, sym d ∙ other)
]

string2port_lem : (str : Bytes) → string2port str ≡ port_result str
unfolding string2port stripped_port
string2port_lem [] = refl
string2port_lem (c ∷ str) =
    stripped_port_lem (c ∷ str) (strip_zeros (c ∷ str)) (all_digits-strip_zeros (c ∷ str))
      (value-strip_zeros (c ∷ str)) (strip_zeros-StartsNonzero (c ∷ str)) refl

-- `string2port` returns the port `n` exactly for the decimal numerals of `n`, at most 65535, with
-- any number of leading zeros.
pub string2port_iff : (str : Bytes) (n : ℕ) → (string2port str ≡ ret (some n)) ↔ IsPort str n
string2port_iff str n = rw string2port_lem (
  (λ e. record {
    nonempty = ground arith;
    digits = ground arith;
    number = ground arith;
    small = ground arith;
  }),
  λ p. ground arith,
)

-- On a text of digits whose number needs more than 64 bits an exception leaves `string2port`; on
-- every other text it returns.
pub string2port-throws_iff :
    (str : Bytes)
    → (string2port str ≡ throws)
      ↔ ((is_empty str ≡ false) × (all_digits str ≡ true) × (2 ^ 64 ≤ value 0 str))
string2port-throws_iff str =
    rw string2port_lem ((λ e. (ground arith, ground arith, ground arith)), λ h. ground arith)
