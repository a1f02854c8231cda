-- ===== src/GlobPath/Norec.antt =====
-- Across components, `match_norec` accepts no more than the pattern means.

use mathlib.Core.Path.{subst}
use ip2unix.Base.{
  Bool-cases, Option, arith, false, if_cases, inl, inr, leb, length, none, refl, some, suc, zero, ℕ,
  ◌&&◌, ◌+◌, ◌-◌, ◌<◌, ◌==◌, ◌≡◌,
}
use ip2unix.Base.Text.{Bytes}
use ip2unix.GlobPath.Class.{
  MatchResult, at, bad_class, end_of_input, got_recursive, got_slash, matched, not_matched,
}
use ip2unix.GlobPath.{
  Outcome, Positions, StarEnd, after_fixed, after_star, count_stars, goes_on, match_fixed,
  norec_loop, returns, star_loop,
}
use ip2unix.GlobPath.Loose.{Matches, Matches-loose, ends, recursive, slash, star_ends}
use ip2unix.GlobPath.Meaning.{Descends, StartsComponent}
use ip2unix.GlobPath.Sound.{
  FixedSound, StarSound, StarSound-map, match_fixed-FixedSound, star_loop-StarSound,
}

module _ (pattern path : Bytes) where
  -- Of a run of wildcards, the loop behind the last one shows what the first one is to show.
  count_stars-StarSound :
      (fuel n j : ℕ) (o : Option StarEnd)
      → 0 < fuel
      → at pattern n ≡ b'*'
      → ((i : ℕ)
          → at pattern i ≡ b'*'
          → n + count_stars fuel pattern n ≡ i + 1
          → StarSound pattern path (Matches pattern path false i j) o)
      → StarSound pattern path (Matches pattern path false n j) o
  unfolding count_stars
  count_stars-StarSound zero n j o l star h = absurd (omega arith)
  count_stars-StarSound (suc zero) n j o l star h = h n star (ground arith)
  count_stars-StarSound (suc (suc fuel)) n j o l star h =
      elim (Bool-cases (at pattern (n + 1) == b'*')) [
        | inl more ↦
            StarSound-map pattern path (Matches pattern path false (n + 1) j)
              (Matches pattern path false n j) o
              (λ m. star_ends false n j star (Matches-loose pattern path false (n + 1) j m))
              (count_stars-StarSound (suc fuel) (n + 1) j o (omega arith) (ground arith)
                λ i last e. h i last (ground arith))
        | inr single ↦ h n star (ground arith)
      ]

  two_stars : (fuel n : ℕ) → count_stars fuel pattern n ≡ 2 → at pattern (n + 1) ≡ b'*'
  unfolding count_stars
  two_stars zero n e = cc
  two_stars (suc zero) n e = ground arith
  two_stars (suc (suc fuel)) n e = ground arith

  after_slash : (n : ℕ) → at pattern n ≡ b'/' → StartsComponent pattern path (n + 1)
  after_slash n h =
      let e : n ≡ n + 1 - 1 = omega arith in inr (subst (λ k. at pattern k ≡ b'/') e h)

  -- What the results of `match_norec` mean, for the claim `G` that it is to show.
  abbrev pub NorecSound : Type 0 → Positions → Outcome → Type 0
  NorecSound G old none = Unit
  NorecSound G old (some (matched, q)) = G
  NorecSound G old (some (got_recursive, q)) =
      StartsComponent pattern path q.patpos
      × ((k : ℕ) → Descends pattern path q.pathpos k → Matches pattern path false q.patpos k → G)
  NorecSound G old (some (_, q)) = q ≡ old

  module _ (G : Type 0) (old : Positions) where
    -- Another round of its loop.
    abbrev NorecAgain : (Positions → Outcome) → Type 0
    NorecAgain again =
        (q : Positions)
        → (Matches pattern path false q.patpos q.pathpos → G)
        → NorecSound G old (again q)

    after_star-NorecSound :
        (o : Option StarEnd) (again : Positions → Outcome)
        → StarSound pattern path G o
        → NorecAgain again
        → NorecSound G old (after_star o again)
    unfolding after_star
    after_star-NorecSound none again h k = tt
    after_star-NorecSound (some (returns q)) again h k = h
    after_star-NorecSound (some (goes_on q)) again h k = k q h

    after_fixed-NorecSound :
        (p : Positions) (last_slash : ℕ) (o : Outcome) (again : ℕ → Positions → Outcome)
        → StartsComponent pattern path last_slash
        → FixedSound pattern path p o
        → (Matches pattern path false p.patpos p.pathpos → G)
        → ((n : ℕ) → StartsComponent pattern path n → NorecAgain (again n))
        → NorecSound G old (after_fixed pattern old last_slash o again)
    unfolding after_fixed
    after_fixed-NorecSound p n none again s h g k = tt
    after_fixed-NorecSound p n (some (not_matched, q)) again s h g k = refl
    after_fixed-NorecSound p n (some (end_of_input, q)) again s h g k = refl
    after_fixed-NorecSound p n (some (matched, q)) again s h g k = k n s q (λ m. g (h false m))
    after_fixed-NorecSound p n (some (bad_class, q)) again s h g k = k n s q (λ m. g (h false m))
    after_fixed-NorecSound p n (some (got_recursive, q)) again s h g k =
        k n s q (λ m. g (h false m))
    after_fixed-NorecSound p n (some (got_slash, q)) again s h g k =
        if_cases (NorecSound G old) (at pattern q.patpos == b'/') _ _
          (λ e.
            let at_slash : at pattern q.patpos ≡ b'/' = ground arith in
            k (q.patpos + 1) (after_slash q.patpos at_slash)
              (record { patpos = q.patpos + 1; pathpos = q.pathpos + 1 })
              (λ m. g (h.0 false (slash false q.patpos q.pathpos at_slash h.1 m))))
          (λ _. refl)

    abbrev behind : Positions → ℕ
    behind p = p.patpos + count_stars (length pattern + 1) pattern p.patpos

    wildcard-NorecSound :
        (p : Positions) (again : Positions → Outcome)
        → at pattern p.patpos ≡ b'*'
        → (Matches pattern path false p.patpos p.pathpos → G)
        → NorecAgain again
        → NorecSound G old (
            after_star
              (star_loop (length path + 2) pattern path (record p { patpos = behind p }))
              again)
    wildcard-NorecSound p again star g k =
        let o = star_loop (length path + 2) pattern path (record p { patpos = behind p }) in
        let here = Matches pattern path false p.patpos p.pathpos in
        after_star-NorecSound o again
          (StarSound-map pattern path here G o g (
            count_stars-StarSound (length pattern + 1) p.patpos p.pathpos o (omega arith) star
              λ i last e.
                star_loop-StarSound pattern path i last (length path + 2)
                  (record p { patpos = behind p }) e))
          k

    descent-NorecSound :
        (p : Positions) (last_slash : ℕ)
        → behind p ≡ p.patpos + 2
        → last_slash + 2 ≡ behind p
        → at pattern (behind p) ≡ b'/'
        → at pattern p.patpos ≡ b'*'
        → StartsComponent pattern path last_slash
        → (Matches pattern path false p.patpos p.pathpos → G)
        → NorecSound G old (some (got_recursive, record p { patpos = behind p + 1 }))
    descent-NorecSound p last_slash two same closed star s g =
        let here : last_slash ≡ p.patpos = omega arith in
        let second = two_stars (length pattern + 1) p.patpos (omega arith) in
        let third = subst (λ n. at pattern n ≡ b'/') two closed in
        let fourth : behind p + 1 ≡ p.patpos + 3 = omega arith in
        (
          after_slash (behind p) closed,
          λ k d m. g (
              recursive false p.patpos p.pathpos k (subst (StartsComponent pattern path) here s)
                star second third d (subst (λ n. Matches pattern path false n k) fourth m)),
        )

    pub norec_loop-NorecSound :
        (fuel last_slash : ℕ) (p : Positions)
        → StartsComponent pattern path last_slash
        → (Matches pattern path false p.patpos p.pathpos → G)
        → NorecSound G old (norec_loop fuel pattern path old last_slash p)
    unfolding norec_loop
    norec_loop-NorecSound zero last_slash p s g = tt
    norec_loop-NorecSound (suc fuel) last_slash p s g =
        if_cases (NorecSound G old) (leb (length pattern) p.patpos) _ _
          (λ a.
            if_cases (λ (r : MatchResult × Positions). NorecSound G old (some r))
              (leb (length path) p.pathpos) _ _
              (λ b. g (ends false p.patpos p.pathpos (ground arith) (inl (ground arith))))
              (λ _. refl))
          λ a.
            if_cases (NorecSound G old) (at pattern p.patpos == b'*') _ _
              (λ b.
                if_cases (NorecSound G old)
                  (behind p == p.patpos + 2
                    && last_slash + 2 == behind p
                    && at pattern (behind p) == b'/')
                  _ _
                  (λ c.
                    descent-NorecSound p last_slash (ground arith) (ground arith) (ground arith)
                      (ground arith) s g)
                  (λ _.
                    wildcard-NorecSound p _ (ground arith) g
                      λ q k. norec_loop-NorecSound fuel last_slash q s k))
              (λ b.
                after_fixed-NorecSound p last_slash (match_fixed pattern path p) _ s
                  (match_fixed-FixedSound pattern path p) g
                  λ n t q k. norec_loop-NorecSound fuel n q t k)
