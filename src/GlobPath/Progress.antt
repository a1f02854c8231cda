-- ===== src/GlobPath/Progress.antt =====
-- Every loop of the matcher moves a position forward and keeps both within their texts, so each
-- ends within its fuel, and no read passes the terminating NUL.
use ip2unix.Base.{
  Bool, Bool-cases, Option, [], arith, false, if_cases, inl, inr, leb, length, none, refl, some,
  suc, true, zero, ℕ, ◌+◌, ◌<◌, ◌==◌, ◌∷◌, ◌≢◌, ◌≤◌,
}
use ip2unix.Base.Text.{Bytes}
use ip2unix.GlobPath.Class.{
  ClassState, MatchResult, after_round, at, bad_class, class_loop, class_member, class_round,
  match_cclass, not_matched,
}
use ip2unix.GlobPath.{after_class, match_char}

module _ (pattern : Bytes) where
  -- A read of a character other than NUL is a read within the text.
  pub at_inside : (s : Bytes) (n : ℕ) → at s n ≢ 0 → n < length s
  at_inside [] n h = absurd (h refl)
  at_inside (c ∷ s) zero h = omega arith
  at_inside (c ∷ s) (suc n) h = omega (arith, at_inside s n h)

  -- A round of the class loop reads within the pattern and moves on.
  abbrev RoundOk : ℕ → Option ClassState → Type 0
  RoundOk n none = Unit
  RoundOk n (some t) = (n < t.nextpat) × (t.nextpat ≤ length pattern)

  class_member-RoundOk :
      (c n : ℕ) (found : Bool) (start : Option ℕ)
      → n < length pattern
      → RoundOk n (some (class_member pattern c n found start))
  unfolding class_member
  class_member-RoundOk c n found none h = ground arith
  class_member-RoundOk c n found (some start) h = ground arith

  class_round-RoundOk : (c : ℕ) (s : ClassState) → RoundOk s.nextpat (class_round pattern c s)
  unfolding class_round
  class_round-RoundOk c s = ground (
    arith,
    class_member-RoundOk c s.nextpat s.found s.rstart,
    class_member-RoundOk c (s.nextpat + 1) s.found s.rstart,
  )

  -- The class loop ends; a class that is no error ends at a bracket within the pattern.
  abbrev ClassOk : ℕ → Option (MatchResult × ℕ) → Type 0
  ClassOk n none = ⊥
  ClassOk n (some (bad_class, m)) = Unit
  ClassOk n (some (_, m)) = (n < m) × (m < length pattern)

  after_round-ClassOk :
      (c n : ℕ) (negate : Bool) (o : Option ClassState)
      (again : ClassState → Option (MatchResult × ℕ))
      → RoundOk n o
      → ((t : ClassState) → n < t.nextpat → t.nextpat ≤ length pattern → ClassOk n (again t))
      → ClassOk n (after_round pattern c negate o again)
  unfolding after_round
  after_round-ClassOk c n negate none again h k = tt
  after_round-ClassOk c n negate (some t) again h k =
      elim (Bool-cases (at pattern t.nextpat == b']')) [
        | inl closed ↦
            let inside = at_inside pattern t.nextpat (ground arith) in
            rw closed (ground (arith, inside))
        | inr open_yet ↦ rw open_yet (k t h.0 h.1)
      ]

  ClassOk-weaken : (n m : ℕ) (o : Option (MatchResult × ℕ)) → n ≤ m → ClassOk m o → ClassOk n o
  ClassOk-weaken n m none l h = h
  ClassOk-weaken n m (some (bad_class, k)) l h = tt
  ClassOk-weaken n m (some (_, k)) l h = omega arith

  class_loop-ClassOk :
      (fuel c : ℕ) (negate : Bool) (s : ClassState)
      → length pattern < fuel + s.nextpat
      → s.nextpat ≤ length pattern
      → ClassOk s.nextpat (class_loop fuel pattern c negate s)
  unfolding class_loop
  class_loop-ClassOk zero c negate s f b = absurd (omega arith)
  class_loop-ClassOk (suc fuel) c negate s f b =
      after_round-ClassOk c s.nextpat negate (class_round pattern c s) _ (class_round-RoundOk c s)
        λ t later inside.
          ClassOk-weaken s.nextpat t.nextpat _ (omega arith)
            (class_loop-ClassOk fuel c negate t (omega arith) inside)

  match_cclass-ClassOk : (n c : ℕ) → n < length pattern → ClassOk n (match_cclass pattern n c)
  unfolding match_cclass
  match_cclass-ClassOk n c h =
      if_cases (ClassOk n) (leb (length pattern) (n + 1)) _ _ (λ _. tt)
        λ more.
          if_cases (ClassOk n) (at pattern (n + 1) == b'!') _ _
            (λ _.
              if_cases (ClassOk n) (leb (length pattern) (n + 2)) _ _ (λ _. tt)
                λ more'. ClassOk-weaken n (n + 2) _ (omega arith) (
                  class_loop-ClassOk (length pattern + 1) c true
                    (record { nextpat = n + 2; found = false; rstart = none }) (omega arith)
                    (ground arith)))
            (λ _. ClassOk-weaken n (n + 1) _ (omega arith) (
              class_loop-ClassOk (length pattern + 1) c false
                (record { nextpat = n + 1; found = false; rstart = none }) (omega arith)
                (ground arith)))

  -- A character of the pattern ends behind where it began, within the pattern.
  abbrev pub CharOk : ℕ → Option (Option ℕ) → Type 0
  CharOk n none = ⊥
  CharOk n (some none) = Unit
  CharOk n (some (some m)) = (n < m) × (m ≤ length pattern)

  after_class-CharOk :
      (n : ℕ) (o : Option (MatchResult × ℕ))
      → n < length pattern
      → ClassOk n o
      → CharOk n (after_class n o)
  unfolding after_class
  after_class-CharOk n none l h = h
  after_class-CharOk n (some (not_matched, m)) l h = tt
  after_class-CharOk n (some (_, m)) l h = omega arith

  pub match_char-CharOk : (n c : ℕ) → n < length pattern → CharOk n (match_char pattern n c)
  unfolding match_char
  match_char-CharOk n c h =
      ground (arith, after_class-CharOk n (match_cclass pattern n c) h (match_cclass-ClassOk n c h))
