-- ===== src/GlobPath/ClassSound.antt =====
-- `match_cclass` accepts no more than the text of a class means.
use ip2unix.Base.{
  Bool, List, Option, arith, false, if_cases, inl, inr, leb, length, none, refl, some, true, ℕ, ◌+◌,
  ◌==◌, ◌≡◌, ◌≤◌, ◌⊎◌,
}
use ip2unix.Base.Text.{Bytes}
use ip2unix.GlobPath.Class.{
  MatchResult, at, bad_class, class_loop, end_of_input, got_recursive, got_slash, match_cclass,
  matched, not_matched,
}
use ip2unix.GlobPath.{after_class}
use ip2unix.GlobPath.Progress.{at_inside}
use ip2unix.GlobPath.ClassText.{
  ClassMatches, ClassText, Item, at_end, broken, inside, invalid, invalid_negated, outside,
}
use ip2unix.GlobPath.ClassRound.{Holds, Sound, class_loop-Sound}

module _ (pattern : Bytes) (c : ℕ) (negate : Bool) where
  -- A result that lets `match_fixed` go on at `n`, for a class whose text begins at `k`.
  abbrev Passes : ℕ → ℕ → ℕ → Type 0
  Passes i k n =
      (ClassText pattern true k none × (n ≡ i + 1))
      ⊎ ((items : List Item) × (m : ℕ) × ClassText pattern true k (some (items, m))
          × Holds pattern c negate false items
          × (n ≡ m + 1))

  after_class-Passes :
      (i k n : ℕ) (r : Option (MatchResult × ℕ))
      → Sound pattern c negate true k none false r
      → after_class i r ≡ some (some n)
      → Passes i k n
  unfolding after_class
  after_class-Passes i k n none h e = cc
  after_class-Passes i k n (some (bad_class, m)) h e = inl (h, cc)
  after_class-Passes i k n (some (matched, m)) (items, t, v) e = inr (items, m, t, v, cc)
  after_class-Passes i k n (some (not_matched, m)) h e = cc
  after_class-Passes i k n (some (end_of_input, m)) h e = absurd h
  after_class-Passes i k n (some (got_slash, m)) h e = absurd h
  after_class-Passes i k n (some (got_recursive, m)) h e = absurd h

  pub class_loop-Passes :
      (i k n : ℕ)
      → after_class i (
          class_loop
            (length pattern + 1)
            pattern
            c
            negate
            (record { nextpat = k; found = false; rstart = none }))
        ≡ some (some n)
      → Passes i k n
  class_loop-Passes i k n e =
      after_class-Passes i k n _
        (class_loop-Sound pattern c negate (length pattern + 1) true k none false (inl refl)) e

module _ (pattern : Bytes) (i c n : ℕ) where
  abbrev Reads : Option (MatchResult × ℕ) → Type 0
  Reads r = after_class i r ≡ some (some n) → ClassMatches pattern i c n

  broken_at : (k : ℕ) → length pattern ≤ k → ClassText pattern true k none
  broken_at k l = broken true k (inl refl) (at_end l)

  invalid_next : (m : ℕ) → after_class i (some (bad_class, m)) ≡ some (some n) → n ≡ i + 1
  unfolding after_class
  invalid_next m e = cc

  pub match_cclass-ClassMatches : Reads (match_cclass pattern i c)
  unfolding match_cclass
  match_cclass-ClassMatches =
      if_cases Reads (leb (length pattern) (i + 1)) _ _
        (λ l e.
          invalid (λ x. ground (arith, at_inside pattern pattern (i + 1) (ground arith)))
            (broken_at (i + 1) (ground arith)) (invalid_next i e))
        λ l.
          if_cases Reads (at pattern (i + 1) == b'!') _ _
            (λ b.
              if_cases Reads (leb (length pattern) (i + 2)) _ _
                (λ l' e.
                  invalid_negated (ground arith) (broken_at (i + 2) (ground arith))
                    (invalid_next i e))
                (λ l' e. elim (class_loop-Passes pattern c true i (i + 2) n e) [
                  | inl (t, same) ↦ invalid_negated (ground arith) t same
                  | inr (items, m, t, v, same) ↦
                      outside items m (ground arith) t (ground arith) same
                ]))
            (λ b e. elim (class_loop-Passes pattern c false i (i + 1) n e) [
              | inl (t, same) ↦ invalid (ground arith) t same
              | inr (items, m, t, v, same) ↦ inside items m (ground arith) t v same
            ])
