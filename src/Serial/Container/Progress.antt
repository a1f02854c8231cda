-- ===== src/Serial/Container/Progress.antt =====
-- Each template's reader takes at least one byte if its elements' do, so a loop needs no more
-- fuel than the stream has bytes.
use ip2unix.Base.{
  Bool-cases, List, [], arith, inl, inr, length, refl, some, suc, zero, ℕ, ◌++◌, ◌<◌, ◌==◌, ◌∷◌,
  ◌≡◌, ◌≤◌,
}
use ip2unix.Base.Text.{Bytes}
use ip2unix.Serial.Stream.{
  Consumes, Parse, Reader, SerialError, Shrinks, after_first, after_key, after_record, after_second,
  err, hang, ok, pure, then_read, ◌>>=◌,
}
use ip2unix.Serial.Container.{
  deserialise_item, deserialise_optional, deserialise_pair, deserialise_sequence_onto, expect,
}

Shrinks-mono : {A : Type 0} (p : Parse A) {m n : ℕ} → Shrinks m p → m ≤ n → Shrinks n p
Shrinks-mono (ok a rest) h l = omega arith
Shrinks-mono (err e) h l = tt
Shrinks-mono hang h l = tt

module _ {A B : Type 0} where
  -- Of two readers in a row, either takes a byte.
  bind-Shrinks :
      (n : ℕ) (p : Parse A) (f : A → Reader B)
      → Shrinks n p
      → ((a : A) → Consumes (f a))
      → Shrinks n (then_read p f)
  bind-Shrinks n (ok a rest) f h k = Shrinks-mono (f a rest) (k a rest) (omega arith)
  bind-Shrinks n (err e) f h k = tt
  bind-Shrinks n hang f h k = tt

  pub bind-Consumes :
      (m : Reader A) (f : A → Reader B)
      → Consumes m
      → ((a : A) → Consumes (f a))
      → Consumes (m >>= f)
  bind-Consumes m f h k s = bind-Shrinks (length s) (m s) f (h s) k

  pub map-Shrinks :
      (n : ℕ) (p : Parse A) (f : A → B) → Shrinks n p → Shrinks n (then_read p (λ a. pure (f a)))
  map-Shrinks n (ok a rest) f h = h
  map-Shrinks n (err e) f h = tt
  map-Shrinks n hang f h = tt

  pub map-Consumes : (m : Reader A) (f : A → B) → Consumes m → Consumes (m >>= λ a. pure (f a))
  map-Consumes m f h s = map-Shrinks (length s) (m s) f (h s)

pub optional-Consumes :
    {A : Type 0} (deserialise : Reader A)
    → Consumes deserialise
    → Consumes (deserialise_optional deserialise)
unfolding deserialise_optional
optional-Consumes deserialise h [] = map-Shrinks 0 (deserialise []) some (h [])
optional-Consumes deserialise h (c ∷ s) = elim (Bool-cases (c == b'!')) [
  | inl mark ↦ rw mark (omega arith)
  | inr other ↦ rw other (map-Shrinks (length (c ∷ s)) (deserialise (c ∷ s)) some (h (c ∷ s)))
]

expect-Consumes :
    (mark : ℕ) (message : ℕ → SerialError) → mark < 255 → Consumes (expect mark message)
expect-Consumes mark message small [] = ground arith
expect-Consumes mark message small (c ∷ s) = ground arith

module _ {A B : Type 0} (first : Reader A) (second : Reader B) (h : Consumes first)
    (k : Consumes second) where
  pub pair-Consumes : Consumes (deserialise_pair first second)
  unfolding deserialise_pair
  pair-Consumes = bind-Consumes first _ h λ a.
      bind-Consumes (expect b'#' after_first) _ (expect-Consumes b'#' after_first (omega arith))
        λ _. bind-Consumes second _ k λ b.
          map-Consumes (expect b'$' after_second) _
            (expect-Consumes b'$' after_second (omega arith))

  pub item-Consumes : Consumes (deserialise_item first second)
  unfolding deserialise_item
  item-Consumes = bind-Consumes first _ h λ a.
      bind-Consumes (expect b'=' after_key) _ (expect-Consumes b'=' after_key (omega arith)) λ _.
        bind-Consumes second _ k λ b.
          map-Consumes (expect b';' after_record) _
            (expect-Consumes b';' after_record (omega arith))

-- Two runs of a loop agree when the element's result is one that leaves less to read.
then_read-cong :
    {A B : Type 0} (n : ℕ) (p : Parse A) (f g : A → Reader B)
    → Shrinks n p
    → ((a : A) (rest : Bytes) → length rest < n → f a rest ≡ g a rest)
    → then_read p f ≡ then_read p g
then_read-cong n (ok a rest) f g h k = k a rest h
then_read-cong n (err e) f g h k = refl
then_read-cong n hang f g h k = refl

-- Fuel for every byte is enough: more fuel never changes the result.
pub sequence_enough_fuel :
    {A : Type 0} (deserialise : Reader A) (f g : ℕ) (out : List A) (s : Bytes)
    → Consumes deserialise
    → length s ≤ f
    → length s ≤ g
    → deserialise_sequence_onto deserialise f out s ≡ deserialise_sequence_onto deserialise g out s
unfolding deserialise_sequence_onto
sequence_enough_fuel d zero zero out [] h hf hg = refl
sequence_enough_fuel d zero (suc g) out [] h hf hg = refl
sequence_enough_fuel d (suc f) zero out [] h hf hg = refl
sequence_enough_fuel d (suc f) (suc g) out [] h hf hg = refl
sequence_enough_fuel d zero g out (c ∷ s) h hf hg = absurd (omega arith)
sequence_enough_fuel d (suc f) zero out (c ∷ s) h hf hg = absurd (omega arith)
sequence_enough_fuel d (suc f) (suc g) out (c ∷ s) h hf hg =
    then_read-cong (length (c ∷ s)) (d (c ∷ s)) _ _ (h (c ∷ s))
      λ a rest l. sequence_enough_fuel d f g (out ++ a ∷ []) rest h (omega arith) (omega arith)
