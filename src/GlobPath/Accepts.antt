-- ===== src/GlobPath/Accepts.antt =====
-- A path that the matcher accepts is one that the pattern means.

use mathlib.Core.Path.{subst}
use ip2unix.Base.{
  Bool, Option, arith, false, if◌then◌else◌, inl, inr, is_some, length, none, refl, some, suc, sym,
  true, zero, ℕ, ◌+◌, ◌-◌, ◌<◌, ◌≡◌,
}
use ip2unix.Base.Text.{Bytes}
use ip2unix.GlobPath.Class.{at, got_recursive, matched}
use ip2unix.GlobPath.{
  Outcome, Positions, after_norec, basename, find_slash, globpath, match_loop, match_norec,
  skip_component,
}
use ip2unix.GlobPath.Loose.{Matches, Matches-Meant, Meant}
use ip2unix.GlobPath.Meaning.{Descends, StartsComponent}
use ip2unix.GlobPath.Skip.{Lands, skip_component-Lands}
use ip2unix.GlobPath.Norec.{NorecSound, norec_loop-NorecSound}

module _ (pattern path : Bytes) where
  -- The loop of `match`.
  module _ (G : Type 0) where
    abbrev MatchAgain : (Positions → Option Bool) → Type 0
    MatchAgain again =
        (q : Positions)
        → StartsComponent pattern path q.patpos
        → ((k : ℕ) → Descends pattern path q.pathpos k → Matches pattern path false q.patpos k → G)
        → again q ≡ some true
        → G

    skipped :
        (p q : Positions) (o : Option ℕ) (again : Positions → Option Bool)
        → StartsComponent pattern path p.patpos
        → q ≡ p
        → Lands path q.pathpos o
        → ((k : ℕ) → Descends pattern path p.pathpos k → Matches pattern path false p.patpos k → G)
        → MatchAgain again
        → elim o as (λ _. Option Bool) [
          | none ↦ some false
          | some n ↦ again (record q { pathpos = n })
        ]
          ≡ some true
        → G
    skipped p q none again s same l g k e = cc
    skipped p q (some n) again s same l g k e =
        let forth : p.pathpos < n = subst (λ (r : Positions). r.pathpos < n) same l.0 in
        let start = subst (λ (r : Positions). r.patpos ≡ p.patpos) (sym same) refl in
        k (record q { pathpos = n }) (subst (StartsComponent pattern path) (sym start) s)
          (λ j d m.
            g j
              (elim d as (λ _. Descends pattern path p.pathpos j) [
                | inl here ↦ inr (omega arith, subst (λ i. at path (i - 1) ≡ b'/') (sym here) l.1)
                | inr further ↦ inr (omega arith, further.1)
              ])
              (subst (λ i. Matches pattern path false i j) start m))
          e

    after_norec-G :
        (p : Positions) (is_recursive : Bool) (o : Outcome) (again : Positions → Option Bool)
        → StartsComponent pattern path p.patpos
        → NorecSound pattern path G p o
        → (is_recursive ≡ true
            → (k : ℕ) → Descends pattern path p.pathpos k
            → Matches pattern path false p.patpos k
            → G)
        → MatchAgain again
        → after_norec path is_recursive o again ≡ some true
        → G
    unfolding after_norec
    after_norec-G p r none again s h g k e = cc
    after_norec-G p r (some (matched, q)) again s h g k e = h
    after_norec-G p r (some (got_recursive, q)) again s h g k e = k q h.0 h.1 e
    after_norec-G p false (some (_, q)) again s h g k e = cc
    after_norec-G p true (some (_, q)) again s h g k e =
        skipped p q (skip_component path q.pathpos) again s h (skip_component-Lands path q.pathpos)
          (g refl) k e

    match_loop-G :
        (fuel : ℕ) (is_recursive : Bool) (p : Positions)
        → StartsComponent pattern path p.patpos
        → (Matches pattern path false p.patpos p.pathpos → G)
        → (is_recursive ≡ true
            → (k : ℕ) → Descends pattern path p.pathpos k
            → Matches pattern path false p.patpos k
            → G)
        → match_loop fuel pattern path is_recursive p ≡ some true
        → G
    unfolding match_loop match_norec
    match_loop-G zero r p s g h e = cc
    match_loop-G (suc fuel) r p s g h e =
        after_norec-G p r (match_norec pattern path p) _ s
          (norec_loop-NorecSound pattern path G p (length pattern + 1) p.patpos p s g) h
          (λ q t k. match_loop-G fuel true q t (k q.pathpos (inl refl)) (λ _. k)) e

-- A path that the matcher accepts is one that the pattern means, all of it or up to `stop`; a rest is
-- left only if the pattern ends behind a wildcard with no slash after it, where a shell accepts none.
-- What a pattern means is the relation Means: characters, classes and escapes stand for one character
-- that is no slash, slashes for slashes, a wildcard for characters of one component, and two wildcards
-- that are a component for any number of components. A pattern without a slash means the last
-- component of the path only.
pub globpath-Meant :
    (pattern path : Bytes)
    → globpath pattern path ≡ some true
    → Meant pattern (if is_some (find_slash pattern) then path else basename path) false 0 0
unfolding globpath
globpath-Meant pattern path e =
    let part = if is_some (find_slash pattern) then path else basename path in
    Matches-Meant pattern part false 0 0 (
      match_loop-G pattern part (Matches pattern part false 0 0) (length pattern + length part + 2)
        false (record { patpos = 0; pathpos = 0 }) (inl refl) (λ m. m) (λ e. cc) e)
