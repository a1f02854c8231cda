-- ===== src/Serial/Container/RoundTrip.antt =====
-- Round trips of the templates, from those of their elements.
use ip2unix.Base.{
  All, Bool, Bool-cases, List, Option, [], ap, append-nil, append_assoc, arith, false, inl, inr,
  length, none, not, refl, some, suc, true, zero, ℕ, ◌++◌, ◌==◌, ◌∙◌, ◌∷◌, ◌≡◌, ◌≤◌,
}
use ip2unix.Base.Text.{Bytes}
use ip2unix.Serial.Stream.{Consumes, Reader, RoundTrips, Shrinks, ok}
use ip2unix.Serial.Container.{
  deserialise_item, deserialise_optional, deserialise_pair, deserialise_sequence,
  deserialise_sequence_onto, serialise_optional, serialise_pair, serialise_sequence,
}

-- The text begins with a character other than `!`.
abbrev pub starts_plain : Bytes → Bool
starts_plain [] = false
starts_plain (c ∷ s) = not (c == b'!')

abbrev pub OptionAll {ℓ} : {A : Type ℓ} → (A → Type 0) → Option A → Type 0
OptionAll P none = Unit
OptionAll P (some a) = P a

module _ {A : Type 0} {P : A → Type 0} (serialise : A → Bytes) (deserialise : Reader A)
    (trip : RoundTrips P serialise deserialise) where
  optional_some :
      (s rest : Bytes) (a : A)
      → deserialise s ≡ ok a rest
      → starts_plain s ≡ true
      → deserialise_optional deserialise s ≡ ok (some a) rest
  unfolding deserialise_optional
  optional_some [] rest a e h = cc
  optional_some (c ∷ s) rest a e h = elim (Bool-cases (c == b'!')) [
    | inl mark ↦ absurd (ground arith)
    | inr plain ↦ rw (plain, e)
  ]

  -- An optional value comes back if no element's text could begin with the mark for `nullopt`.
  pub optional-RoundTrips :
      ((a : A) (rest : Bytes) → starts_plain (serialise a ++ rest) ≡ true)
      → RoundTrips (OptionAll P) (serialise_optional serialise) (deserialise_optional deserialise)
  unfolding serialise_optional
  optional-RoundTrips h none rest _ = unfold deserialise_optional in refl
  optional-RoundTrips h (some a) rest p =
      optional_some (serialise a ++ rest) rest a (trip a rest p) (h a rest)

  sequence_step :
      (fuel : ℕ) (out : List A) (s rest : Bytes) (a : A)
      → Consumes deserialise
      → deserialise s ≡ ok a rest
      → deserialise_sequence_onto deserialise (suc fuel) out s
        ≡ deserialise_sequence_onto deserialise fuel (out ++ a ∷ []) rest
  unfolding deserialise_sequence_onto
  sequence_step fuel out [] rest a c e =
      let h : Shrinks 0 (ok a rest) = rw e at (c []) in absurd (omega arith)
  sequence_step fuel out (x ∷ s) rest a c e = rw e

  sequence_onto-RoundTrips :
      (val : List A) (fuel : ℕ) (out : List A)
      → Consumes deserialise
      → All P val
      → length (serialise_sequence serialise val) ≤ fuel
      → deserialise_sequence_onto deserialise fuel out (serialise_sequence serialise val)
        ≡ ok (out ++ val) []
  unfolding serialise_sequence
  sequence_onto-RoundTrips [] zero out c p h =
      rw append-nil (unfold deserialise_sequence_onto in refl)
  sequence_onto-RoundTrips [] (suc fuel) out c p h =
      rw append-nil (unfold deserialise_sequence_onto in refl)
  sequence_onto-RoundTrips (a ∷ val) zero out c p h =
      let text = serialise_sequence serialise val in
      let shorter = rw (trip a text p.0) at (c (serialise a ++ text)) in absurd (omega arith)
  sequence_onto-RoundTrips (a ∷ val) (suc fuel) out c p h =
      let text = serialise_sequence serialise val in
      let read = trip a text p.0 in
      let shorter = rw read at (c (serialise a ++ text)) in
      sequence_step fuel out (serialise a ++ text) text a c read
      ∙ sequence_onto-RoundTrips val fuel (out ++ a ∷ []) c p.1 (omega arith)
      ∙ ap (λ l. ok l []) (append_assoc out (a ∷ []) val)

  -- A sequence that was written is read back, onto what the vector held.
  pub sequence-RoundTrips :
      Consumes deserialise
      → (out val : List A) → All P val
      → deserialise_sequence deserialise out (serialise_sequence serialise val) ≡ ok (out ++ val) []
  unfolding deserialise_sequence
  sequence-RoundTrips c out val p = sequence_onto-RoundTrips val _ out c p (omega arith)

-- The round trip of a pair: the marks between and behind its parts are read back too.
module _ {A B : Type 0} {P : A → Type 0} {Q : B → Type 0} (write_first : A → Bytes)
    (write_second : B → Bytes) (read_first : Reader A) (read_second : Reader B)
    (first_trip : RoundTrips P write_first read_first)
    (second_trip : RoundTrips Q write_second read_second) where
  pub pair-RoundTrips :
      RoundTrips
        (λ (p : A × B). P p.0 × Q p.1)
        (serialise_pair write_first write_second)
        (deserialise_pair read_first read_second)
  unfolding serialise_pair deserialise_pair
  pair-RoundTrips (a, b) rest (p, q) = simp (append_assoc, first_trip a _ p, second_trip b _ q)

  pub item-RoundTrips :
      (a : A) (b : B) (rest : Bytes)
      → P a
      → Q b
      → deserialise_item read_first read_second
          (write_first a ++ (b'=' ∷ (write_second b ++ (b';' ∷ rest))))
        ≡ ok (a, b) rest
  unfolding deserialise_item
  item-RoundTrips a b rest p q = simp (first_trip a _ p, second_trip b _ q)
