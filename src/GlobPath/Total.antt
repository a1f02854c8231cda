-- ===== src/GlobPath/Total.antt =====
-- The matcher returns an answer for every pattern and path: its fuel is enough.
use mathlib.Core.Option
use ip2unix.Base.{
  Bool, Option, [], arith, drop, false, if_cases, if◌then◌else◌, is_some, length, none, some, suc,
  true, zero, ℕ, ◌+◌, ◌<◌, ◌==◌, ◌∷◌, ◌≡◌, ◌≢◌, ◌≤◌,
}
use ip2unix.Base.Text.{Bytes}
use ip2unix.GlobPath.Class.{got_recursive, matched}
use ip2unix.GlobPath.Fixed.{Inside}
use ip2unix.GlobPath.{
  Outcome, Positions, after_norec, basename, find_slash, globpath, match_loop, skip_component,
}
use ip2unix.GlobPath.Component.{NorecOk, match_norec-NorecOk}

-- Skipping a component of the path.
module _ (path : Bytes) where
  abbrev Below : ℕ → Option ℕ → Type 0
  Below k none = Unit
  Below k (some n) = n < k

  Below-suc : (k : ℕ) (o : Option ℕ) → Below k o → Below (suc k) (Option.map suc o)
  Below-suc k none h = tt
  Below-suc k (some n) h = omega arith

  find_slash-Below : (s : Bytes) → Below (length s) (find_slash s)
  unfolding find_slash
  find_slash-Below [] = tt
  find_slash-Below (c ∷ s) =
      if_cases (Below (suc (length s))) (c == b'/') _ _ (λ _. omega arith)
        (λ _. Below-suc (length s) (find_slash s) (find_slash-Below s))

  length-drop : (n : ℕ) (s : Bytes) → n ≤ length s → length (drop n s) + n ≡ length s
  length-drop zero s h = omega arith
  length-drop (suc n) [] h = absurd (omega arith)
  length-drop (suc n) (c ∷ s) h = omega (arith, length-drop n s (omega arith))

  -- A skip moves forward, within the path.
  abbrev pub SkipOk : ℕ → Option ℕ → Type 0
  SkipOk n none = Unit
  SkipOk n (some m) = (n < m) × (m ≤ length path)

  slash-SkipOk :
      (n k : ℕ) (o : Option ℕ)
      → k + n ≡ length path
      → Below k o
      → SkipOk n (Option.map (λ pos. n + pos + 1) o)
  slash-SkipOk n k none e h = tt
  slash-SkipOk n k (some m) e h = omega arith

  pub skip_component-SkipOk : (n : ℕ) → n ≤ length path → SkipOk n (skip_component path n)
  unfolding skip_component
  skip_component-SkipOk n h =
      slash-SkipOk n (length (drop n path)) (find_slash (drop n path)) (length-drop n path h)
        (find_slash-Below (drop n path))

module _ (pattern path : Bytes) where
  abbrev MatchAgain : ℕ → (Positions → Option Bool) → Type 0
  MatchAgain n again =
      (q : Positions) → Inside pattern path q → n < q.patpos + q.pathpos → again q ≢ none

  answers : (b : Bool) → some b ≢ none
  answers b e = cc

  after_skip-total :
      (q : Positions) (o : Option ℕ) (again : Positions → Option Bool)
      → Inside pattern path q
      → SkipOk path q.pathpos o
      → MatchAgain (q.patpos + q.pathpos) again
      → elim o [ none ↦ some false | some n ↦ again (record q { pathpos = n }) ] ≢ none
  after_skip-total q none again i h k = answers false
  after_skip-total q (some n) again i h k =
      k (record q { pathpos = n }) (record { pat_inside = i.pat_inside; path_inside = h.1 })
        (omega arith)

  after_norec-total :
      (p : Positions) (is_recursive : Bool) (o : Outcome) (again : Positions → Option Bool)
      → NorecOk pattern path p o
      → MatchAgain (p.patpos + p.pathpos) again
      → after_norec path is_recursive o again ≢ none
  unfolding after_norec skip_component
  after_norec-total p r none again h k = absurd h
  after_norec-total p r (some (matched, q)) again h k = answers true
  after_norec-total p r (some (got_recursive, q)) again h k = k q h.0.2 (omega arith)
  after_norec-total p false (some (_, q)) again h k = answers false
  after_norec-total p true (some (_, q)) again h k =
      after_skip-total q (skip_component path q.pathpos) again h.2
        (skip_component-SkipOk path q.pathpos h.2.path_inside) (λ r i l. k r i (omega arith))

  match_loop-total :
      (fuel : ℕ) (is_recursive : Bool) (p : Positions)
      → Inside pattern path p
      → length pattern + length path < fuel + p.patpos + p.pathpos
      → match_loop fuel pattern path is_recursive p ≢ none
  unfolding match_loop
  match_loop-total zero r p i h = absurd (omega (arith, i.pat_inside, i.path_inside))
  match_loop-total (suc fuel) r p i h =
      after_norec-total p r _ _ (match_norec-NorecOk pattern path p i)
        λ q i' l. match_loop-total fuel true q i' (omega arith)

-- The matcher returns an answer for every pattern and every path: none of its loops runs for ever.
pub globpath-total : (pattern path : Bytes) → globpath pattern path ≢ none
unfolding globpath
globpath-total pattern path =
    let part = if is_some (find_slash pattern) then path else basename path in
    match_loop-total pattern part (length pattern + length part + 2) false
      (record { patpos = 0; pathpos = 0 })
      (record { pat_inside = omega arith; path_inside = omega arith }) (omega arith)
