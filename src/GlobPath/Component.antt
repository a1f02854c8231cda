-- ===== src/GlobPath/Component.antt =====
-- Within a component, both positions only move forward and stay in their texts.
use ip2unix.Base.{
  Bool-cases, Option, arith, false, if_cases, inl, inr, leb, length, none, some, suc, true, zero, ℕ,
  ◌&&◌, ◌+◌, ◌<◌, ◌==◌, ◌∙◌, ◌≡◌, ◌≤◌,
}
use ip2unix.Base.Text.{Bytes}
use ip2unix.GlobPath.Class.{
  MatchResult, at, bad_class, end_of_input, got_recursive, got_slash, matched, not_matched,
}
use ip2unix.GlobPath.{
  Outcome, Positions, StarEnd, after_attempt, after_fixed, after_star, count_stars, goes_on,
  match_fixed, match_norec, norec_loop, returns, star_loop,
}
use ip2unix.GlobPath.Progress.{at_inside}
use ip2unix.GlobPath.Fixed.{FixedOk, Forward, Inside, match_fixed-FixedOk}

module _ (pattern path : Bytes) where
  -- Behind a wildcard, positions only move forward.
  abbrev StarOk : Positions → Option StarEnd → Type 0
  StarOk p none = ⊥
  StarOk p (some (returns q)) = Forward pattern path p q
  StarOk p (some (goes_on q)) = Forward pattern path p q

  Forward-trans :
      (p q r : Positions)
      → Forward pattern path p q
      → Forward pattern path q r
      → Forward pattern path p r
  Forward-trans p q r f g = (omega arith, omega arith, g.2)

  StarOk-weaken :
      (p q : Positions) (o : Option StarEnd) → Forward pattern path p q → StarOk q o → StarOk p o
  StarOk-weaken p q none f h = h
  StarOk-weaken p q (some (returns r)) f h = Forward-trans p q r f h
  StarOk-weaken p q (some (goes_on r)) f h = Forward-trans p q r f h

  after_attempt-StarOk :
      (p : Positions) (o : Outcome) (again : Positions → Option StarEnd)
      → FixedOk pattern path p o
      → ((q : Positions) → Forward pattern path p q → p.pathpos < q.pathpos → StarOk q (again q))
      → StarOk p (after_attempt pattern o again)
  unfolding after_attempt
  after_attempt-StarOk p none again h k = h
  after_attempt-StarOk p (some (not_matched, q)) again h k =
      let r : Positions = record q { pathpos = q.pathpos + 1 } in
      let f : Forward pattern path p r = (
        omega arith,
        omega arith,
        record { pat_inside = h.0.2.pat_inside; path_inside = omega arith },
      ) in
      StarOk-weaken p r _ f (k r f (omega arith))
  after_attempt-StarOk p (some (end_of_input, q)) again h k =
      if_cases (λ (e : StarEnd). StarOk p (some e)) (leb (length pattern) q.patpos) _ _ (λ _. h)
        (λ _. h)
  after_attempt-StarOk p (some (matched, q)) again h k = h.0
  after_attempt-StarOk p (some (got_slash, q)) again h k = h.0
  after_attempt-StarOk p (some (bad_class, q)) again h k = absurd h
  after_attempt-StarOk p (some (got_recursive, q)) again h k = absurd h

  star_loop-StarOk :
      (fuel : ℕ) (p : Positions)
      → Inside pattern path p
      → length path < fuel + p.pathpos
      → StarOk p (star_loop fuel pattern path p)
  unfolding star_loop
  star_loop-StarOk zero p i h = absurd (omega (arith, i.path_inside))
  star_loop-StarOk (suc fuel) p i h =
      after_attempt-StarOk p (match_fixed pattern path p) _ (match_fixed-FixedOk pattern path p i)
        λ q f l. star_loop-StarOk fuel q f.2 (omega arith)

  count_stars-le :
      (fuel n : ℕ) → n ≤ length pattern → n + count_stars fuel pattern n ≤ length pattern
  unfolding count_stars
  count_stars-le zero n h = omega arith
  count_stars-le (suc fuel) n h =
      if_cases (λ (m : ℕ). n + m ≤ length pattern) (at pattern n == b'*') _ _
        (λ e. omega (
          arith,
          count_stars-le fuel (n + 1) (omega (arith, at_inside pattern pattern n (ground arith))),
        ))
        (λ _. omega arith)

  count_stars-pos :
      (fuel n : ℕ) → 0 < fuel → at pattern n == b'*' ≡ true → n < n + count_stars fuel pattern n
  unfolding count_stars
  count_stars-pos zero n l h = absurd (omega arith)
  count_stars-pos (suc fuel) n l h = rw h (omega arith)

  -- What `match_norec` may return from `p`.
  abbrev pub NorecOk : Positions → Outcome → Type 0
  NorecOk p none = ⊥
  NorecOk p (some (got_recursive, q)) = Forward pattern path p q × (p.patpos < q.patpos)
  NorecOk p (some (_, q)) = Forward pattern path p q

  -- Another round of its loop, from further behind in the pattern.
  abbrev NorecAgain : Positions → ℕ → (Positions → Outcome) → Type 0
  NorecAgain old n again =
      (q : Positions) → Forward pattern path old q → n < q.patpos → NorecOk old (again q)

  after_star-NorecOk :
      (old p : Positions) (o : Option StarEnd) (again : Positions → Outcome) (n : ℕ)
      → Forward pattern path old p
      → n < p.patpos
      → StarOk p o
      → NorecAgain old n again
      → NorecOk old (after_star o again)
  unfolding after_star
  after_star-NorecOk old p none again n f l h k = h
  after_star-NorecOk old p (some (returns q)) again n f l h k = Forward-trans old p q f h
  after_star-NorecOk old p (some (goes_on q)) again n f l h k =
      k q (Forward-trans old p q f h) (omega arith)

  star_later : (n m : ℕ) → n ≤ m → at pattern n == b'*' ≡ false → at pattern m ≡ b'*' → n < m
  star_later n m l h e = elim (Bool-cases (leb m n)) [
    | inl b ↦
        let same : n ≡ m = ground arith in
        let star : at pattern n ≡ b'*' = (λ i. at pattern (same i)) ∙ e in ground arith
    | inr b ↦ ground arith
  ]

  after_fixed-NorecOk :
      (old p : Positions) (last_slash : ℕ) (o : Outcome) (again : ℕ → Positions → Outcome)
      → Inside pattern path old
      → Forward pattern path old p
      → p.patpos < length pattern
      → at pattern p.patpos == b'*' ≡ false
      → FixedOk pattern path p o
      → ((slash : ℕ) → NorecAgain old p.patpos (again slash))
      → NorecOk old (after_fixed pattern old last_slash o again)
  unfolding after_fixed
  after_fixed-NorecOk old p s none again i f l n h k = h
  after_fixed-NorecOk old p s (some (not_matched, q)) again i f l n h k =
      (omega arith, omega arith, i)
  after_fixed-NorecOk old p s (some (end_of_input, q)) again i f l n h k =
      (omega arith, omega arith, i)
  after_fixed-NorecOk old p s (some (matched, q)) again i f l n h k =
      k s q (Forward-trans old p q f h.0)
        (elim h.1 [ inl e ↦ omega arith | inr e ↦ star_later p.patpos q.patpos h.0.0 n e ])
  after_fixed-NorecOk old p s (some (got_slash, q)) again i f l n h k =
      if_cases (NorecOk old) (at pattern q.patpos == b'/') _ _
        (λ e.
          let r : Positions = record { patpos = q.patpos + 1; pathpos = q.pathpos + 1 } in
          k (q.patpos + 1) r
            (
              omega arith,
              omega arith,
              record { pat_inside = omega arith; path_inside = omega arith },
            )
            (omega arith))
        (λ e. (omega arith, omega arith, i))
  after_fixed-NorecOk old p s (some (bad_class, q)) again i f l n h k = absurd h
  after_fixed-NorecOk old p s (some (got_recursive, q)) again i f l n h k = absurd h

  norec_loop-NorecOk :
      (fuel : ℕ) (old : Positions) (last_slash : ℕ) (p : Positions)
      → Inside pattern path old
      → Forward pattern path old p
      → length pattern < fuel + p.patpos
      → NorecOk old (norec_loop fuel pattern path old last_slash p)
  unfolding norec_loop
  norec_loop-NorecOk zero old s p i f h = absurd (omega (arith, f.2.pat_inside))
  norec_loop-NorecOk (suc fuel) old s p i f h =
      let stars = count_stars (length pattern + 1) pattern p.patpos in
      let behind : Positions = record p { patpos = p.patpos + stars } in
      if_cases (NorecOk old) (leb (length pattern) p.patpos) _ _
        (λ e.
          if_cases (λ (r : MatchResult × Positions). NorecOk old (some r))
            (leb (length path) p.pathpos) _ _ (λ _. f) (λ _. (omega arith, omega arith, i)))
        λ a.
          if_cases (NorecOk old) (at pattern p.patpos == b'*') _ _
            (λ e.
              let ahead : p.patpos < behind.patpos =
                count_stars-pos (length pattern + 1) p.patpos (omega arith) e in
              let inside : behind.patpos ≤ length pattern =
                count_stars-le (length pattern + 1) p.patpos f.2.pat_inside in
              let inner : Inside pattern path behind = record {
                pat_inside = inside;
                path_inside = f.2.path_inside;
              } in
              if_cases (NorecOk old)
                (behind.patpos == p.patpos + 2
                  && s + 2 == behind.patpos
                  && at pattern behind.patpos == b'/')
                _ _
                (λ g.
                  let slash = at_inside pattern pattern behind.patpos (ground arith) in
                  (
                    (
                      omega arith,
                      f.1,
                      record { pat_inside = omega arith; path_inside = f.2.path_inside },
                    ),
                    omega arith,
                  ))
                (λ g.
                  after_star-NorecOk old behind _ _ p.patpos (omega arith, f.1, inner) ahead
                    (star_loop-StarOk (length path + 2) behind inner (omega arith))
                    λ q g' l. norec_loop-NorecOk fuel old s q i g' (omega arith)))
            (λ e.
              after_fixed-NorecOk old p s _ _ i f (ground arith) e
                (match_fixed-FixedOk pattern path p f.2)
                λ slash q g l. norec_loop-NorecOk fuel old slash q i g (omega arith))

  -- From positions within the pattern and the path, `match_norec` returns, with positions that are
  -- still within the two and not before the given ones. Where it returns GotRecursive, the position
  -- in the pattern is past the given one.
  pub match_norec-NorecOk :
      (p : Positions) → Inside pattern path p → NorecOk p (match_norec pattern path p)
  unfolding match_norec
  match_norec-NorecOk p i =
      norec_loop-NorecOk (length pattern + 1) p p.patpos p i (omega arith, omega arith, i)
        (omega arith)
