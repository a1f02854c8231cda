-- ===== src/Serial/Container.antt =====
-- The templates of src/serial.hh: optional values, pairs, sequences and maps, each over the
-- functions of its element types.
pub mod RoundTrip
pub mod Progress
pub mod MapTrip
use ip2unix.Base.{
  Bool, List, Option, [], if◌then◌else◌, length, none, some, suc, zero, ℕ, ◌++◌, ◌==◌, ◌∷◌,
}
use ip2unix.Base.Text.{Bytes}
use ip2unix.Serial.Stream.{
  Reader, SerialError, after_first, after_key, after_record, after_second, err, get_char, hang, ok,
  pure, then_read, ◌>>=◌, ◌>>◌,
}

-- `if ((c = in.get()) != mark) return message`.
abbrev pub expect : ℕ → (ℕ → SerialError) → Reader (Unit {0})
expect mark message s =
    let (c, rest) = get_char s in if c == mark then ok tt rest else err (message c)

module _ {A : Type 0} (serialise : A → Bytes) where
  unfoldable pub serialise_optional : Option A → Bytes
  serialise_optional none = b'!' ∷ []
  serialise_optional (some val) = serialise val

  -- `std::deque<T>` and `std::vector<T>` share their text.
  unfoldable pub serialise_sequence : List A → Bytes
  serialise_sequence [] = []
  serialise_sequence (item ∷ val) = serialise item ++ serialise_sequence val

module _ {A : Type 0} (deserialise : Reader A) where
  -- `unget` gives the character back. At the end of the stream there is none to give back, and the
  -- element is read from the empty stream.
  unfoldable pub deserialise_optional : Reader (Option A)
  deserialise_optional [] = then_read (deserialise []) (λ a. pure (some a))
  deserialise_optional (c ∷ s) =
      if c == b'!' then ok none s else then_read (deserialise (c ∷ s)) (λ a. pure (some a))

  -- `while (in.peek() != EOF)`, with fuel for the elements; a round reads at least one byte.
  unfoldable pub deserialise_sequence_onto : ℕ → List A → Reader (List A)
  deserialise_sequence_onto fuel out [] = ok out []
  deserialise_sequence_onto zero out (c ∷ s) = hang
  deserialise_sequence_onto (suc fuel) out (c ∷ s) =
      then_read (deserialise (c ∷ s)) λ outval. deserialise_sequence_onto fuel (out ++ outval ∷ [])

  -- The convenience wrapper's whole input, onto a vector that is already there.
  unfoldable pub deserialise_sequence : List A → Reader (List A)
  unfolding deserialise_sequence_onto
  deserialise_sequence out s = deserialise_sequence_onto (length s) out s

module _ {A B : Type 0} (serialise_first : A → Bytes) (serialise_second : B → Bytes) where
  unfoldable pub serialise_pair : A × B → Bytes
  serialise_pair (a, b) = serialise_first a ++ (b'#' ∷ (serialise_second b ++ b'$' ∷ []))

  -- `std::unordered_map<K, V>`, in the order in which it iterates.
  unfoldable pub serialise_map : List (A × B) → Bytes
  serialise_map [] = []
  serialise_map ((key, val) ∷ rest) =
      serialise_first key ++ (b'=' ∷ (serialise_second val ++ (b';' ∷ serialise_map rest)))

module _ {A B : Type 0} (deserialise_first : Reader A) (deserialise_second : Reader B) where
  unfoldable pub deserialise_pair : Reader (A × B)
  deserialise_pair = do
    a ← deserialise_first
    expect b'#' after_first
    b ← deserialise_second
    expect b'$' after_second
    pure (a, b)

  -- One round of the map's loop, up to the assignment.
  unfoldable pub deserialise_item : Reader (A × B)
  deserialise_item = do
    outkey ← deserialise_first
    expect b'=' after_key
    outval ← deserialise_second
    expect b';' after_record
    pure (outkey, outval)

-- `(*out)[outkey] = outval` on an association list without repeated keys.
module _ {A B : Type 0} (eq : A → A → Bool) where
  unfoldable pub assign : A → B → List (A × B) → List (A × B)
  assign key val [] = (key, val) ∷ []
  assign key val ((k, v) ∷ rest) =
      if eq k key then (k, val) ∷ rest else (k, v) ∷ assign key val rest

  module _ (deserialise_key : Reader A) (deserialise_value : Reader B) where
    unfoldable pub deserialise_map_onto : ℕ → List (A × B) → Reader (List (A × B))
    unfolding assign deserialise_item
    deserialise_map_onto fuel out [] = ok out []
    deserialise_map_onto zero out (c ∷ s) = hang
    deserialise_map_onto (suc fuel) out (c ∷ s) =
        then_read (deserialise_item deserialise_key deserialise_value (c ∷ s))
          λ item. deserialise_map_onto fuel (assign item.0 item.1 out)

    unfoldable pub deserialise_map : List (A × B) → Reader (List (A × B))
    unfolding deserialise_map_onto
    deserialise_map out s = deserialise_map_onto (length s) out s
