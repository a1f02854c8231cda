-- ===== src/GlobPath/Sound.antt =====
-- Within a component the matcher accepts no more than the pattern means.
use mathlib.Core.Path.{subst}
use ip2unix.Base.{
  Bool, Option, arith, false, if_cases, if◌then◌else◌, inl, inr, leb, length, ltb, none, refl, some,
  suc, sym, true, zero, ℕ, ◌&&◌, ◌+◌, ◌<◌, ◌==◌, ◌≡◌, ◌≢◌, ◌≤◌, ◌⊎◌,
}
use ip2unix.Base.Text.{Bytes}
use ip2unix.GlobPath.Class.{
  MatchResult, at, backslash, bad_class, end_of_input, got_recursive, got_slash, matched,
  not_matched,
}
use ip2unix.GlobPath.{
  Outcome, Positions, StarEnd, after_attempt, after_char, fixed_loop, goes_on, match_char,
  match_fixed, returns, skip_escape, star_loop,
}
use ip2unix.GlobPath.Progress.{CharOk, match_char-CharOk}
use ip2unix.GlobPath.ClassSound.{match_cclass-ClassMatches}
use ip2unix.GlobPath.Loose.{
  Matches, Matches-loose, character, ends, escaped_slash, star_ends, star_takes,
}
use ip2unix.GlobPath.Meaning.{CharMatches, any_char, bracket, escaped, literal}

module _ (pattern path : Bytes) where
  abbrev Reads : ℕ → ℕ → ℕ → Option (Option ℕ) → Type 0
  Reads i c n o = o ≡ some (some n) → CharMatches pattern path i c n

  match_char-CharMatches :
      (i c n : ℕ) → match_char pattern i c ≡ some (some n) → CharMatches pattern path i c n
  unfolding match_char
  match_char-CharMatches i c n =
      if_cases (Reads i c n) (at pattern i == b'[') _ _
        (λ a e. bracket (ground arith) (match_cclass-ClassMatches pattern i c n e))
        λ a.
          if_cases (Reads i c n) (at pattern i == b'?') _ _ (λ b e. any_char (ground arith) (cc))
            λ b.
              if_cases (Reads i c n) (at pattern i == backslash) _ _
                (λ d.
                  if_cases (Reads i c n) (leb (length pattern) (i + 1)) _ _ (λ _ e. cc)
                    λ _.
                      if_cases (Reads i c n) (at pattern (i + 1) == c) _ _
                        (λ f e. escaped (ground arith) (ground arith) (cc)) (λ _ e. cc))
                λ d.
                  if_cases (Reads i c n) (at pattern i == c) _ _
                    (λ f e.
                      literal (ground arith) (ground arith) (ground arith) (ground arith) (cc))
                    (λ _ e. cc)

  -- From one pair of positions to another, with any wildcards before.
  abbrev pub Chain : Positions → Positions → Type 0
  Chain p q =
      (loose : Bool)
      → Matches pattern path loose q.patpos q.pathpos
      → Matches pattern path loose p.patpos p.pathpos

  -- What the results of `match_fixed` from `old` mean. Without a match, the character of the path
  -- can be skipped, or the pattern is at its end.
  abbrev pub FixedSound : Positions → Outcome → Type 0
  FixedSound old none = Unit
  FixedSound old (some (not_matched, q)) =
      ((q ≡ old) × (old.pathpos < length path) × (at path old.pathpos ≢ b'/'))
      ⊎ (Matches pattern path true old.patpos old.pathpos)
  FixedSound old (some (end_of_input, q)) = (q ≡ old) × (old.patpos < length pattern)
  FixedSound old (some (got_slash, q)) = Chain old q × (at path q.pathpos ≡ b'/')
  FixedSound old (some (_, q)) = Chain old q

  after_char-FixedSound :
      (old p : Positions) (o : Option (Option ℕ)) (again : Positions → Outcome)
      → FixedSound old (some (not_matched, old))
      → ((n : ℕ)
          → o ≡ some (some n)
          → FixedSound old (again (record { patpos = n; pathpos = p.pathpos + 1 })))
      → FixedSound old (after_char old p.pathpos o again)
  unfolding after_char
  after_char-FixedSound old p none again h k = tt
  after_char-FixedSound old p (some none) again h k = h
  after_char-FixedSound old p (some (some n)) again h k = k n refl

  skip_escape-Chain :
      (p : Positions)
      → at path p.pathpos ≡ b'/'
      → Chain p (record p { patpos = skip_escape pattern p.patpos })
  unfolding skip_escape
  skip_escape-Chain p h loose =
      if_cases
        (λ (n : ℕ).
          Matches pattern path loose n p.pathpos → Matches pattern path loose p.patpos p.pathpos)
        (at pattern p.patpos == backslash
          && ltb (p.patpos + 1) (length pattern)
          && at pattern (p.patpos + 1) == b'/')
        _ _ (λ e m. escaped_slash loose p.patpos p.pathpos (ground arith) (ground arith) h m)
        (λ e m. m)

  -- The first character of the path that is read at `old` is no slash, if any was read.
  fixed_loop-FixedSound :
      (fuel : ℕ) (old p : Positions)
      → Chain old p
      → old.patpos ≤ p.patpos
      → ((p ≡ old) ⊎ ((old.pathpos < length path) × (at path old.pathpos ≢ b'/')))
      → FixedSound old (fixed_loop fuel pattern path old p)
  unfolding fixed_loop
  fixed_loop-FixedSound zero old p chain l first = tt
  fixed_loop-FixedSound (suc fuel) old p chain l first =
      if_cases (FixedSound old) (leb (length pattern) p.patpos) _ _
        (λ a.
          if_cases (λ (r : MatchResult). FixedSound old (some (r, p))) (leb (length path) p.pathpos)
            _ _ (λ _. chain)
            (λ _. inr (chain true (ends true p.patpos p.pathpos (ground arith) (inr refl)))))
        λ a.
          if_cases (FixedSound old) (at pattern p.patpos == b'*') _ _ (λ _. chain)
            λ b.
              if_cases (FixedSound old) (leb (length path) p.pathpos) _ _
                (λ c. (refl, ground arith))
                λ c.
                  if_cases (FixedSound old) (at path p.pathpos == b'/') _ _
                    (λ d. (
                      λ loose m. chain loose (skip_escape-Chain p (ground arith) loose m),
                      ground arith,
                    ))
                    λ d.
                      let here =
                        elim first
                          as (λ _. (old.pathpos < length path) × (at path old.pathpos ≢ b'/')) [
                            | inl e ↦
                                subst
                                  (λ (o : Positions).
                                    (o.pathpos < length path) × (at path o.pathpos ≢ b'/'))
                                  e (ground arith, ground arith)
                            | inr h ↦ h
                          ] in
                      after_char-FixedSound old p (match_char pattern p.patpos (at path p.pathpos))
                        _ (inl (refl, here.0, here.1))
                        λ n e.
                          let ok = subst (CharOk pattern p.patpos) e (
                            match_char-CharOk pattern p.patpos (at path p.pathpos)
                              (ground arith)) in
                          fixed_loop-FixedSound fuel old
                            (record { patpos = n; pathpos = p.pathpos + 1 })
                            (λ loose m. chain loose (
                              character loose p.patpos p.pathpos n (ground arith) (ground arith)
                                (ground arith) (ground arith)
                                (match_char-CharMatches p.patpos (at path p.pathpos) n e) m))
                            (omega arith) (inr here)

  pub match_fixed-FixedSound : (p : Positions) → FixedSound p (match_fixed pattern path p)
  unfolding match_fixed
  match_fixed-FixedSound p =
      fixed_loop-FixedSound (length pattern + 1) p p (λ loose m. m) (omega arith) (inl refl)

  -- What the results of the loop behind a wildcard mean, for the claim `G` that it is to show.
  abbrev pub StarSound : Type 0 → Option StarEnd → Type 0
  StarSound G none = Unit
  StarSound G (some (returns q)) = G
  StarSound G (some (goes_on q)) = Matches pattern path false q.patpos q.pathpos → G

  pub StarSound-map : (G H : Type 0) (o : Option StarEnd) → (G → H) → StarSound G o → StarSound H o
  StarSound-map G H none f h = tt
  StarSound-map G H (some (returns q)) f h = f h
  StarSound-map G H (some (goes_on q)) f h = λ m. f (h m)

  shown-StarSound : (G : Type 0) (o : Option StarEnd) → G → StarSound G o
  shown-StarSound G none g = tt
  shown-StarSound G (some (returns q)) g = g
  shown-StarSound G (some (goes_on q)) g = λ m. g

  module _ (i : ℕ) (star : at pattern i ≡ b'*') where
    abbrev pub FromStar : ℕ → Type 0
    FromStar j = Matches pattern path false i j

    through :
        (p q : Positions)
        → p.patpos ≡ i + 1
        → Chain p q
        → Matches pattern path false q.patpos q.pathpos
        → FromStar p.pathpos
    through p q e chain m = star_ends false i p.pathpos star (
        subst (λ k. Matches pattern path true k p.pathpos) e
          (chain true (Matches-loose pattern path false q.patpos q.pathpos m)))

    after_attempt-StarSound :
        (p : Positions) (o : Outcome) (again : Positions → Option StarEnd)
        → p.patpos ≡ i + 1
        → FixedSound p o
        → ((q : Positions) → q.patpos ≡ i + 1 → StarSound (FromStar q.pathpos) (again q))
        → StarSound (FromStar p.pathpos) (after_attempt pattern o again)
    unfolding after_attempt
    after_attempt-StarSound p none again e h k = tt
    after_attempt-StarSound p (some (not_matched, q)) again e (inl (same, l, c)) k =
        let next : Positions = record p { pathpos = p.pathpos + 1 } in
        StarSound-map (FromStar next.pathpos) (FromStar p.pathpos) _
          (λ m. star_takes false i p.pathpos star l c m)
          (subst
            (λ (o : Positions).
              StarSound (FromStar next.pathpos) (again (record o { pathpos = o.pathpos + 1 })))
            (sym same) (k next e))
    after_attempt-StarSound p (some (not_matched, q)) again e (inr m) k =
        shown-StarSound (FromStar p.pathpos) _ (
          star_ends false i p.pathpos star (subst (λ n. Matches pattern path true n p.pathpos) e m))
    after_attempt-StarSound p (some (end_of_input, q)) again e (same, l) k =
        subst
          (λ (o : Positions).
            StarSound (FromStar p.pathpos)
              (some (if leb (length pattern) o.patpos then returns o else goes_on o)))
          (sym same)
          (if_cases (λ (r : StarEnd). StarSound (FromStar p.pathpos) (some r))
            (leb (length pattern) p.patpos) _ _ (λ a. absurd (ground arith))
            (λ _ m. through p p e (λ loose n. n) m))
    after_attempt-StarSound p (some (matched, q)) again e h k = through p q e h
    after_attempt-StarSound p (some (got_slash, q)) again e h k = through p q e h.0
    after_attempt-StarSound p (some (bad_class, q)) again e h k = through p q e h
    after_attempt-StarSound p (some (got_recursive, q)) again e h k = through p q e h

    pub star_loop-StarSound :
        (fuel : ℕ) (p : Positions)
        → p.patpos ≡ i + 1
        → StarSound (FromStar p.pathpos) (star_loop fuel pattern path p)
    unfolding star_loop
    star_loop-StarSound zero p e = tt
    star_loop-StarSound (suc fuel) p e =
        after_attempt-StarSound p (match_fixed pattern path p) _ e (match_fixed-FixedSound p)
          (star_loop-StarSound fuel)
