-- ===== src/GlobPath/Loose.antt =====
-- What the loops of the matcher accept, with the rest of the path that they leave.
use ip2unix.Base.{Bool, false, inr, length, refl, true, ℕ, ◌+◌, ◌<◌, ◌≡◌, ◌≢◌, ◌≤◌, ◌⊎◌}
use ip2unix.Base.Text.{Bytes}
use ip2unix.GlobPath.Class.{at, backslash}
use ip2unix.GlobPath.Meaning.{
  CharMatches, Descends, Means, StartsComponent, goes_down, passes_star, star_takes_more, stops,
  takes, takes_escaped_slash, takes_slash,
}

module _ (pattern path : Bytes) where
  -- The pattern from `i` on matches the path from `j` on. `loose` says that a wildcard was passed
  -- since the last slash of the pattern; then its end leaves any rest of the path.
  pub data Matches : Bool → ℕ → ℕ → Type 0 where
    ends :
        (loose : Bool) (i j : ℕ)
        → length pattern ≤ i
        → (length path ≤ j) ⊎ (loose ≡ true)
        → Matches loose i j
    character :
        (loose : Bool) (i j n : ℕ)
        → i < length pattern
        → at pattern i ≢ b'*'
        → j < length path
        → at path j ≢ b'/'
        → CharMatches pattern path i (at path j) n
        → Matches loose n (j + 1)
        → Matches loose i j
    escaped_slash :
        (loose : Bool) (i j : ℕ)
        → at pattern i ≡ backslash
        → at pattern (i + 1) ≡ b'/'
        → at path j ≡ b'/'
        → Matches loose (i + 1) j
        → Matches loose i j
    slash :
        (loose : Bool) (i j : ℕ)
        → at pattern i ≡ b'/'
        → at path j ≡ b'/'
        → Matches false (i + 1) (j + 1)
        → Matches loose i j
    star_ends :
        (loose : Bool) (i j : ℕ) → at pattern i ≡ b'*' → Matches true (i + 1) j → Matches loose i j
    star_takes :
        (loose : Bool) (i j : ℕ)
        → at pattern i ≡ b'*'
        → j < length path
        → at path j ≢ b'/'
        → Matches loose i (j + 1)
        → Matches loose i j
    recursive :
        (loose : Bool) (i j k : ℕ)
        → StartsComponent pattern path i
        → at pattern i ≡ b'*'
        → at pattern (i + 1) ≡ b'*'
        → at pattern (i + 2) ≡ b'/'
        → Descends pattern path j k
        → Matches false (i + 3) k
        → Matches loose i j

  -- A wildcard only adds matches.
  pub Matches-loose : (loose : Bool) (i j : ℕ) → Matches loose i j → Matches true i j
  Matches-loose b x y (ends loose i j e r) = ends true i j e (inr refl)
  Matches-loose b x y (character loose i j n p s l h c m) =
      character true i j n p s l h c (Matches-loose loose n (j + 1) m)
  Matches-loose b x y (escaped_slash loose i j p q h m) =
      escaped_slash true i j p q h (Matches-loose loose (i + 1) j m)
  Matches-loose b x y (slash loose i j p h m) = slash true i j p h m
  Matches-loose b x y (star_ends loose i j p m) = star_ends true i j p m
  Matches-loose b x y (star_takes loose i j p l h m) =
      star_takes true i j p l h (Matches-loose loose i (j + 1) m)
  Matches-loose b x y (recursive loose i j k s p q r d m) = recursive true i j k s p q r d m

  -- The part of the path that is meant, and what was passed last.
  abbrev pub Meant : Bool → ℕ → ℕ → Type 0
  Meant wild i j =
      (last : Bool) × (stop : ℕ) × Means pattern path last stop wild i j
      × ((length path ≤ stop) ⊎ (last ≡ true))

  pub Matches-Meant : (wild : Bool) (i j : ℕ) → Matches wild i j → Meant wild i j
  Matches-Meant b x y (ends wild i j e r) = (wild, j, stops wild i j e refl refl, r)
  Matches-Meant b x y (character wild i j n p s l h c m) =
      let rest = Matches-Meant wild n (j + 1) m in
      (rest.0, rest.1, takes wild i j n p s l h c rest.2, rest.3)
  Matches-Meant b x y (escaped_slash wild i j p q h m) =
      let rest = Matches-Meant wild (i + 1) j m in
      (rest.0, rest.1, takes_escaped_slash wild i j p q h rest.2, rest.3)
  Matches-Meant b x y (slash wild i j p h m) =
      let rest = Matches-Meant false (i + 1) (j + 1) m in
      (rest.0, rest.1, takes_slash wild i j p h rest.2, rest.3)
  Matches-Meant b x y (star_ends wild i j p m) =
      let rest = Matches-Meant true (i + 1) j m in
      (rest.0, rest.1, passes_star wild i j p rest.2, rest.3)
  Matches-Meant b x y (star_takes wild i j p l h m) =
      let rest = Matches-Meant wild i (j + 1) m in
      (rest.0, rest.1, star_takes_more wild i j p l h rest.2, rest.3)
  Matches-Meant b x y (recursive wild i j k s p q r d m) =
      let rest = Matches-Meant false (i + 3) k m in
      (rest.0, rest.1, goes_down wild i j k s p q r d rest.2, rest.3)
