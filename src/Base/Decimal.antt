-- ===== src/Base/Decimal.antt =====
-- Decimal numerals: what a stream writes for an unsigned number, and how digits are read back.
use Prim.Native.Nat.{ℕ, zero, suc, ◌+◌, ◌-◌, ◌*◌, ◌/◌, ◌%◌, ◌≤◌, ◌<◌}
use mathlib.Core.Path.{◌≡◌, refl}
use mathlib.Core.Logic.{inl, inr}
use mathlib.Core.List.{[], ◌∷◌, ◌++◌, append_assoc}
use mathlib.Core.Bool.{Bool, true, false, ◌&&◌}
use native.Mathlib.Omega.{arith}
use ip2unix.Base.Tests.{Bool-cases, if◌then◌else◌, leb, ltb}
use ip2unix.Base.Lists.{All, All-append}
use ip2unix.Base.Text.{Bytes}

-- `isdigit` in the "C" locale.
abbrev pub is_digit : ℕ → Bool
is_digit c = leb b'0' c && leb c b'9'

decimal_fuel : ℕ → ℕ → Bytes
decimal_fuel zero n = []
decimal_fuel (suc f) n =
    let more = decimal_fuel f (n / 10) ++ (b'0' + n % 10) ∷ [] in
    if ltb n 10 then (b'0' + n) ∷ [] else more

-- The digits of `n`, without leading zeros. A number has fewer digits than `n + 1`.
unfoldable pub decimal : ℕ → Bytes
unfolding decimal_fuel
decimal n = decimal_fuel (n + 1) n

-- The number that digits stand for, behind those already read.
unfoldable pub value : ℕ → Bytes → ℕ
value acc [] = acc
value acc (c ∷ cs) = value (acc * 10 + (c - b'0')) cs

-- The longest run of digits, as a number and what follows it.
unfoldable pub read_digits : ℕ → Bytes → ℕ × Bytes
read_digits acc [] = (acc, [])
read_digits acc (c ∷ cs) =
    let further = read_digits (acc * 10 + (c - b'0')) cs in
    if is_digit c then further else (acc, c ∷ cs)

abbrev pub starts_with_digit : Bytes → Bool
starts_with_digit [] = false
starts_with_digit (c ∷ cs) = is_digit c

pub value-concat :
    (xs : Bytes) (acc d : ℕ) → value acc (xs ++ d ∷ []) ≡ value acc xs * 10 + (d - b'0')
unfolding value
value-concat [] acc d = refl
value-concat (x ∷ xs) acc d = value-concat xs (acc * 10 + (x - b'0')) d

value-decimal_fuel : (f n : ℕ) → n < f → value 0 (decimal_fuel f n) ≡ n
unfolding decimal_fuel
value-decimal_fuel zero n h = absurd (omega arith)
value-decimal_fuel (suc f) n h = elim (Bool-cases (ltb n 10)) [
  | inl small ↦ rw small (unfold value in omega arith)
  | inr big ↦ rw (big, value-concat, value-decimal_fuel f (n / 10) (ground arith)) (omega arith)
]

pub value-decimal : (n : ℕ) → value 0 (decimal n) ≡ n
unfolding decimal
value-decimal n = value-decimal_fuel (n + 1) n (omega arith)

abbrev pub IsDigit : ℕ → Type 0
IsDigit c = (b'0' ≤ c) × (c ≤ b'9')

All-decimal_fuel : (f n : ℕ) → All IsDigit (decimal_fuel f n)
unfolding decimal_fuel
All-decimal_fuel zero n = tt
All-decimal_fuel (suc f) n = elim (Bool-cases (ltb n 10)) [
  | inl small ↦ rw small ((ground arith, ground arith), tt)
  | inr big ↦ rw big (
      All-append IsDigit (decimal_fuel f (n / 10)) ((b'0' + n % 10) ∷ [])
        (All-decimal_fuel f (n / 10)) ((omega arith, omega arith), tt))
]

pub All-decimal : (n : ℕ) → All IsDigit (decimal n)
unfolding decimal
All-decimal n = All-decimal_fuel (n + 1) n

pub read_digits-append :
    (xs rest : Bytes) (acc : ℕ)
    → All IsDigit xs
    → read_digits acc (xs ++ rest) ≡ read_digits (value acc xs) rest
unfolding read_digits value
read_digits-append [] rest acc h = refl
read_digits-append (x ∷ xs) rest acc h =
    ground (arith, read_digits-append xs rest (acc * 10 + (x - b'0')) h.1)

pub read_digits_stop :
    (rest : Bytes) (acc : ℕ) → starts_with_digit rest ≡ false → read_digits acc rest ≡ (acc, rest)
unfolding read_digits
read_digits_stop [] acc h = refl
read_digits_stop (c ∷ cs) acc h = rw h

-- Digits written are read back, if no digit follows them.
pub read_digits-decimal :
    (n : ℕ) (rest : Bytes)
    → starts_with_digit rest ≡ false
    → read_digits 0 (decimal n ++ rest) ≡ (n, rest)
read_digits-decimal n rest h =
    rw (read_digits-append (decimal n) rest 0 (All-decimal n), value-decimal n)
      (read_digits_stop rest n h)

decimal_fuel_starts :
    (f n : ℕ) (rest : Bytes) → n < f → starts_with_digit (decimal_fuel f n ++ rest) ≡ true
unfolding decimal_fuel
decimal_fuel_starts zero n rest h = absurd (omega arith)
decimal_fuel_starts (suc f) n rest h = elim (Bool-cases (ltb n 10)) [
  | inl small ↦ rw (small, starts_with_digit) (ground arith)
  | inr big ↦
      rw (big, append_assoc)
        (decimal_fuel_starts f (n / 10) ((b'0' + n % 10) ∷ rest) (ground arith))
]

-- A number is written with at least one digit.
pub decimal_starts : (n : ℕ) (rest : Bytes) → starts_with_digit (decimal n ++ rest) ≡ true
unfolding decimal
decimal_starts n rest = decimal_fuel_starts (n + 1) n rest (omega arith)
