-- ===== src/GlobPath/Skip.antt =====
-- Skipping a component of the path lands behind a slash.
use mathlib.Core.Option
use mathlib.Core.Path.{subst}
use ip2unix.Base.{
  Option, [], ap, arith, drop, if_cases, none, refl, some, suc, sym, zero, ℕ, ◌+◌, ◌-◌, ◌<◌, ◌==◌,
  ◌∙◌, ◌∷◌, ◌≡◌,
}
use ip2unix.Base.Text.{Bytes}
use ip2unix.GlobPath.Class.{at}
use ip2unix.GlobPath.{find_slash, skip_component}

-- A position that has a slash.
abbrev AtSlash : Bytes → Option ℕ → Type 0
AtSlash s none = Unit
AtSlash s (some n) = at s n ≡ b'/'

AtSlash-suc : (c : ℕ) (s : Bytes) (o : Option ℕ) → AtSlash s o → AtSlash (c ∷ s) (Option.map suc o)
AtSlash-suc c s none h = tt
AtSlash-suc c s (some n) h = h

find_slash-AtSlash : (s : Bytes) → AtSlash s (find_slash s)
unfolding find_slash
find_slash-AtSlash [] = tt
find_slash-AtSlash (c ∷ s) =
    if_cases (AtSlash (c ∷ s)) (c == b'/') _ _ (λ e. ground arith)
      (λ _. AtSlash-suc c s (find_slash s) (find_slash-AtSlash s))

at-drop : (n m : ℕ) (s : Bytes) → at (drop n s) m ≡ at s (n + m)
at-drop zero m s = let e : m ≡ 0 + m = omega arith in ap (at s) e
at-drop (suc n) m [] = refl
at-drop (suc n) m (c ∷ s) =
    let e : suc (n + m) ≡ suc n + m = omega arith in at-drop n m s ∙ ap (at (c ∷ s)) e

module _ (path : Bytes) where
  abbrev pub Lands : ℕ → Option ℕ → Type 0
  Lands j none = Unit
  Lands j (some k) = (j < k) × (at path (k - 1) ≡ b'/')

  offset-Lands :
      (j : ℕ) (o : Option ℕ) → AtSlash (drop j path) o → Lands j (Option.map (λ pos. j + pos + 1) o)
  offset-Lands j none h = tt
  offset-Lands j (some m) h =
      let e : j + m ≡ j + m + 1 - 1 = omega arith in
      (omega arith, subst (λ k. at path k ≡ b'/') e (sym (at-drop j m path) ∙ h))

  pub skip_component-Lands : (j : ℕ) → Lands j (skip_component path j)
  unfolding skip_component
  skip_component-Lands j =
      offset-Lands j (find_slash (drop j path)) (find_slash-AtSlash (drop j path))
