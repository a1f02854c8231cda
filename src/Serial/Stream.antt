-- ===== src/Serial/Stream.antt =====
-- The input stream of the deserialisers: what is read, and how a call can end.
use ip2unix.Base.{[], length, ℕ, ◌++◌, ◌<◌, ◌∷◌, ◌≡◌}
use ip2unix.Base.Text.{Bytes}

-- The messages, each with the character it names.
pub data SerialError : Type 0 where
  after_integer after_first after_second after_key after_record : ℕ → SerialError
  bad_boolean bad_rule_dir bad_socket_type : ℕ → SerialError

-- `ok`: the function returned no error, with the value and the bytes left. `err`: it returned a
-- message. `hang`: it never returns.
pub data Parse {ℓ} (A : Type ℓ) : Type ℓ where
  ok : A → Bytes → Parse A
  err : SerialError → Parse A
  hang : Parse A

abbrev pub Reader {ℓ} : Type ℓ → Type ℓ
Reader A = Bytes → Parse A

infixl 5 ◌>>=◌ ◌>>◌
abbrev pub then_read {ℓ κ} : {A : Type ℓ} {B : Type κ} → Parse A → (A → Reader B) → Parse B
then_read (ok a rest) f = f a rest
then_read (err e) f = err e
then_read hang f = hang

abbrev pub ◌>>=◌ {ℓ κ} : {A : Type ℓ} {B : Type κ} → Reader A → (A → Reader B) → Reader B
◌>>=◌ m f s = then_read (m s) f

abbrev pub ◌>>◌ {ℓ} : {B : Type ℓ} → Reader (Unit {0}) → Reader B → Reader B
◌>>◌ m k s = then_read (m s) (λ _. k)

abbrev pub pure {ℓ} : {A : Type ℓ} → A → Reader A
pure a s = ok a s

-- `c = in.get()` into a `char`: the end of the stream is EOF, which a `char` holds as 255.
abbrev pub get_char : Bytes → ℕ × Bytes
get_char [] = (255, [])
get_char (c ∷ rest) = (c, rest)

-- `deserialise` reads back what `serialise` writes for the values of `P`, and stops there.
abbrev pub RoundTrips {ℓ} : {A : Type ℓ} → (A → Type 0) → (A → Bytes) → Reader A → Type ℓ
RoundTrips {A} P serialise deserialise =
    (a : A) (rest : Bytes) → P a → deserialise (serialise a ++ rest) ≡ ok a rest

-- A value that was read took at least one byte of `n`.
abbrev pub Shrinks {ℓ} : {A : Type ℓ} → ℕ → Parse A → Type 0
Shrinks n (ok a rest) = length rest < n
Shrinks n (err e) = Unit
Shrinks n hang = Unit

abbrev pub Consumes {ℓ} : {A : Type ℓ} → Reader A → Type 0
Consumes deserialise = (s : Bytes) → Shrinks (length s) (deserialise s)
