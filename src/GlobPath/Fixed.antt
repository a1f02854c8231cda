-- ===== src/GlobPath/Fixed.antt =====
-- Without wildcards, both positions only move forward and stay in their texts.
use ip2unix.Base.{
  Option, arith, if_cases, inl, inr, leb, length, none, some, suc, zero, ℕ, ◌+◌, ◌<◌, ◌==◌, ◌≡◌,
  ◌≤◌, ◌⊎◌,
}
use ip2unix.Base.Text.{Bytes}
use ip2unix.GlobPath.Class.{MatchResult, at, end_of_input, got_slash, matched, not_matched}
use ip2unix.GlobPath.{Outcome, Positions, after_char, fixed_loop, match_fixed, skip_escape}
use ip2unix.GlobPath.Progress.{CharOk, match_char-CharOk}

module _ (pattern path : Bytes) where
  -- Both positions are within their texts.
  pub record Inside (p : Positions) : Type 0 where
    pub pat_inside : p.patpos ≤ length pattern
    pub path_inside : p.pathpos ≤ length path

  -- Positions move forward only.
  abbrev pub Forward : Positions → Positions → Type 0
  Forward p q = (p.patpos ≤ q.patpos) × (p.pathpos ≤ q.pathpos) × Inside q

  skip_escape-le :
      (n : ℕ)
      → n < length pattern
      → (n ≤ skip_escape pattern n) × (skip_escape pattern n < length pattern)
  unfolding skip_escape
  skip_escape-le n h = ground arith

  -- What `match_fixed` may return from `p`: a mismatch leaves a character of the path to skip, and a
  -- match ends at a wildcard or at the end of the pattern.
  abbrev pub FixedOk : Positions → Outcome → Type 0
  FixedOk p none = ⊥
  FixedOk p (some (not_matched, q)) = Forward p q × (q.pathpos < length path)
  FixedOk p (some (matched, q)) =
      Forward p q × ((length pattern ≤ q.patpos) ⊎ (at pattern q.patpos ≡ b'*'))
  FixedOk p (some (got_slash, q)) =
      Forward p q × (q.patpos < length pattern) × (q.pathpos < length path)
  FixedOk p (some (end_of_input, q)) = Forward p q
  FixedOk p (some (_, q)) = ⊥

  after_char-FixedOk :
      (old p : Positions) (o : Option (Option ℕ)) (again : Positions → Outcome)
      → Forward old p
      → p.pathpos < length path
      → CharOk pattern p.patpos o
      → ((q : Positions) → p.patpos < q.patpos → Forward old q → FixedOk old (again q))
      → FixedOk old (after_char old p.pathpos o again)
  unfolding after_char
  after_char-FixedOk old p none again f l h k = h
  after_char-FixedOk old p (some none) again f l h k = omega arith
  after_char-FixedOk old p (some (some n)) again f l h k =
      k (record { patpos = n; pathpos = p.pathpos + 1 }) h.0 (omega arith)

  fixed_loop-FixedOk :
      (fuel : ℕ) (old p : Positions)
      → Inside old
      → Forward old p
      → length pattern < fuel + p.patpos
      → FixedOk old (fixed_loop fuel pattern path old p)
  unfolding fixed_loop
  fixed_loop-FixedOk zero old p i f h = absurd (omega arith)
  fixed_loop-FixedOk (suc fuel) old p i f h =
      if_cases (FixedOk old) (leb (length pattern) p.patpos) _ _
        (λ e.
          if_cases (λ (r : MatchResult). FixedOk old (some (r, p))) (leb (length path) p.pathpos) _
            _ (λ m. (f, inl (ground arith))) (λ m. (f, ground arith)))
        λ a.
          if_cases (FixedOk old) (at pattern p.patpos == b'*') _ _ (λ e. (f, inr (ground arith)))
            λ b.
              if_cases (FixedOk old) (leb (length path) p.pathpos) _ _
                (λ e. (omega arith, omega arith, i))
                λ c.
                  if_cases (FixedOk old) (at path p.pathpos == b'/') _ _
                    (λ e.
                      let s = skip_escape-le p.patpos (ground arith) in
                      (
                        (
                          omega arith,
                          f.1,
                          record { pat_inside = omega arith; path_inside = f.2.path_inside },
                        ),
                        s.1,
                        ground arith,
                      ))
                    λ d.
                      after_char-FixedOk old p _ _ f (ground arith)
                        (match_char-CharOk pattern p.patpos (at path p.pathpos) (ground arith))
                        λ q l g. fixed_loop-FixedOk fuel old q i g (omega arith)

  pub match_fixed-FixedOk : (p : Positions) → Inside p → FixedOk p (match_fixed pattern path p)
  unfolding match_fixed
  match_fixed-FixedOk p i =
      fixed_loop-FixedOk (length pattern + 1) p p i (omega arith, omega arith, i) (omega arith)
