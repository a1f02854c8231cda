-- ===== src/GlobPath/ClassText.antt =====
-- What the text of a class of characters means, apart from the loop that reads it.
use ip2unix.Base.{
  Bool, List, Option, [], false, leb, length, none, some, true, ℕ, ◌%◌, ◌&&◌, ◌+◌, ◌<◌, ◌==◌, ◌||◌,
  ◌∷◌, ◌≡◌, ◌≢◌, ◌≤◌, ◌⊎◌,
}
use ip2unix.Base.Text.{Bytes}
use ip2unix.GlobPath.Class.{at, backslash}

pub data Item : Type 0 where
  single : ℕ → Item
  span : ℕ → ℕ → Item

-- Characters are ordered as numbers from -128 to 127, here moved up by 128.
unfoldable pub is_in : Item → ℕ → Bool
is_in (single a) c = a == c
is_in (span a b) c =
    leb ((a + 128) % 256) ((c + 128) % 256) && leb ((c + 128) % 256) ((b + 128) % 256)

unfoldable pub contains : List Item → ℕ → Bool
unfolding is_in
contains [] c = false
contains (item ∷ items) c = is_in item c || contains items c

-- A class with its items and the position of its closing bracket, or none.
abbrev pub with_item : Item → Option (List Item × ℕ) → Option (List Item × ℕ)
with_item item none = none
with_item item (some (items, m)) = some (item ∷ items, m)

module _ (pattern : Bytes) where
  -- At `n` stands the character `c`, plain or behind a backslash, and the text goes on at `m`.
  pub data Char (n c m : ℕ) : Type 0 where
    plain :
        n < length pattern
        → at pattern n ≢ b'/'
        → at pattern n ≢ backslash
        → at pattern n ≡ c
        → m ≡ n + 1
        → Char n c m
    quoted :
        at pattern n ≡ backslash
        → n + 1 < length pattern
        → at pattern (n + 1) ≡ c
        → m ≡ n + 2
        → Char n c m

  -- No character of a class stands there.
  pub data NoChar (n : ℕ) : Type 0 where
    at_end : length pattern ≤ n → NoChar n
    at_slash : at pattern n ≡ b'/' → NoChar n
    at_backslash : at pattern n ≡ backslash → length pattern ≤ n + 1 → NoChar n

  -- A closing bracket is a character where the class begins.
  abbrev pub Open : Bool → ℕ → Type 0
  Open first n = (first ≡ true) ⊎ (at pattern n ≢ b']')

  -- The text of a class from `n` on; without a class it is `none`.
  pub data ClassText : Bool → ℕ → Option (List Item × ℕ) → Type 0 where
    closed : (n : ℕ) → at pattern n ≡ b']' → ClassText false n (some ([], n))
    broken : (first : Bool) (n : ℕ) → Open first n → NoChar n → ClassText first n none
    one :
        (first : Bool) (n c m : ℕ) (o : Option (List Item × ℕ))
        → Open first n
        → Char n c m
        → at pattern m ≢ b'-'
        → ClassText false m o
        → ClassText first n (with_item (single c) o)
    dash_last :
        (first : Bool) (n c m l : ℕ)
        → Open first n
        → Char n c m
        → at pattern m ≡ b'-'
        → l ≡ m + 1
        → at pattern l ≡ b']'
        → ClassText first n (some (single c ∷ single b'-' ∷ [], l))
    half_span :
        (first : Bool) (n c m l : ℕ)
        → Open first n
        → Char n c m
        → at pattern m ≡ b'-'
        → l ≡ m + 1
        → at pattern l ≢ b']'
        → NoChar l
        → ClassText first n none
    from_to :
        (first : Bool) (n a m l b k : ℕ) (o : Option (List Item × ℕ))
        → Open first n
        → Char n a m
        → at pattern m ≡ b'-'
        → l ≡ m + 1
        → at pattern l ≢ b']'
        → Char l b k
        → ClassText false k o
        → ClassText first n (with_item (span a b) o)

  -- The class at the bracket at `i` holds `c` and ends before `n`; an invalid one is any character.
  pub data ClassMatches (i c n : ℕ) : Type 0 where
    inside :
        (items : List Item) (m : ℕ)
        → at pattern (i + 1) ≢ b'!'
        → ClassText true (i + 1) (some (items, m))
        → contains items c ≡ true
        → n ≡ m + 1
        → ClassMatches i c n
    outside :
        (items : List Item) (m : ℕ)
        → at pattern (i + 1) ≡ b'!'
        → ClassText true (i + 2) (some (items, m))
        → contains items c ≡ false
        → n ≡ m + 1
        → ClassMatches i c n
    invalid :
        at pattern (i + 1) ≢ b'!' → ClassText true (i + 1) none → n ≡ i + 1 → ClassMatches i c n
    invalid_negated :
        at pattern (i + 1) ≡ b'!' → ClassText true (i + 2) none → n ≡ i + 1 → ClassMatches i c n
