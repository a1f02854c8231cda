-- ===== src/Serial/Scalar/Unterminated.antt =====
-- A string whose text has no end mark: the loop of `deserialise` does not end.
use ip2unix.Base.{
  All, [], arith, if◌then◌else◌, length, none, refl, suc, zero, ℕ, ◌++◌, ◌+◌, ◌==◌, ◌∷◌, ◌≡◌, ◌≢◌,
}
use ip2unix.Base.Text.{Bytes}
use ip2unix.Serial.Stream.{hang}
use ip2unix.Serial.Scalar.{deserialise_string, string_rounds}

rounds_unterminated :
    (rounds : ℕ) (s out : Bytes) → All (λ c. c ≢ b'&') s → string_rounds rounds out s ≡ none
unfolding string_rounds
rounds_unterminated zero s out h = refl
rounds_unterminated (suc rounds) [] out h = rounds_unterminated rounds [] (out ++ 255 ∷ []) tt
rounds_unterminated (suc rounds) (c ∷ []) out h = ground (
  arith,
  h.0,
  rounds_unterminated rounds [] (out ++ 255 ∷ []) tt,
  rounds_unterminated rounds [] (out ++ c ∷ []) tt,
)
rounds_unterminated (suc rounds) (c ∷ d ∷ s) out h = ground (
  arith,
  h.0,
  rounds_unterminated rounds s (out ++ (if d == b'@' then 0 else d) ∷ []) h.1.1,
  rounds_unterminated rounds (d ∷ s) (out ++ c ∷ []) h.1,
)

-- On a text without an end mark, the loop that reads a string is not done after any number of rounds,
-- as the end of the stream does not end it; so, with memory without end, reading never returns.
pub deserialise_string-hangs :
    (s : Bytes)
    → All (λ c. c ≢ b'&') s
    → ((rounds : ℕ) → string_rounds rounds [] s ≡ none) × (deserialise_string s ≡ hang)
unfolding deserialise_string
deserialise_string-hangs s h = (
  λ rounds. rounds_unterminated rounds s [] h,
  ground (arith, rounds_unterminated (length s + 1) s [] h),
)
