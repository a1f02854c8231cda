-- ===== src/GlobPath/Meaning.antt =====
-- What a pattern means, apart from the loops that match it: a relation on the rest of the pattern and
-- the rest of the path.
use ip2unix.Base.{Bool, false, length, true, ℕ, ◌+◌, ◌-◌, ◌<◌, ◌≡◌, ◌≢◌, ◌≤◌, ◌⊎◌}
use ip2unix.Base.Text.{Bytes}
use ip2unix.GlobPath.Class.{at, backslash}
use ip2unix.GlobPath.ClassText.{ClassMatches}

module _ (pattern path : Bytes) where
  -- The pattern's character at `i` stands for `c`, and the pattern goes on at `n`. An opening bracket
  -- is a class, or any character where the class is invalid.
  pub data CharMatches (i c n : ℕ) : Type 0 where
    literal :
        at pattern i ≡ c
        → at pattern i ≢ b'['
        → at pattern i ≢ b'?'
        → at pattern i ≢ backslash
        → n ≡ i + 1
        → CharMatches i c n
    any_char : at pattern i ≡ b'?' → n ≡ i + 1 → CharMatches i c n
    escaped : at pattern i ≡ backslash → at pattern (i + 1) ≡ c → n ≡ i + 2 → CharMatches i c n
    bracket : at pattern i ≡ b'[' → ClassMatches pattern i c n → CharMatches i c n

  -- `j` itself, or the beginning of a component further on.
  abbrev pub Descends : ℕ → ℕ → Type 0
  Descends j k = (k ≡ j) ⊎ ((j < k) × (at path (k - 1) ≡ b'/'))

  abbrev pub StartsComponent : ℕ → Type 0
  StartsComponent i = (i ≡ 0) ⊎ (at pattern (i - 1) ≡ b'/')

  -- The pattern from `i` on means the text of the path from `j` on, up to `stop`. Whether a wildcard
  -- was passed since the last slash of the pattern is `wild` here and `last` at the end.
  pub data Means (last : Bool) (stop : ℕ) : Bool → ℕ → ℕ → Type 0 where
    stops :
        (wild : Bool) (i j : ℕ)
        → length pattern ≤ i
        → j ≡ stop
        → wild ≡ last
        → Means last stop wild i j
    takes :
        (wild : Bool) (i j n : ℕ)
        → i < length pattern
        → at pattern i ≢ b'*'
        → j < length path
        → at path j ≢ b'/'
        → CharMatches i (at path j) n
        → Means last stop wild n (j + 1)
        → Means last stop wild i j
    takes_escaped_slash :
        (wild : Bool) (i j : ℕ)
        → at pattern i ≡ backslash
        → at pattern (i + 1) ≡ b'/'
        → at path j ≡ b'/'
        → Means last stop wild (i + 1) j
        → Means last stop wild i j
    takes_slash :
        (wild : Bool) (i j : ℕ)
        → at pattern i ≡ b'/'
        → at path j ≡ b'/'
        → Means last stop false (i + 1) (j + 1)
        → Means last stop wild i j
    passes_star :
        (wild : Bool) (i j : ℕ)
        → at pattern i ≡ b'*'
        → Means last stop true (i + 1) j
        → Means last stop wild i j
    star_takes_more :
        (wild : Bool) (i j : ℕ)
        → at pattern i ≡ b'*'
        → j < length path
        → at path j ≢ b'/'
        → Means last stop wild i (j + 1)
        → Means last stop wild i j
    goes_down :
        (wild : Bool) (i j k : ℕ)
        → StartsComponent i
        → at pattern i ≡ b'*'
        → at pattern (i + 1) ≡ b'*'
        → at pattern (i + 2) ≡ b'/'
        → Descends j k
        → Means last stop false (i + 3) k
        → Means last stop wild i j
