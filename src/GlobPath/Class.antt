-- ===== src/GlobPath/Class.antt =====
-- The classes of characters in the patterns of src/globpath.cc.

use ip2unix.Base.{
  Bool, Option, false, get_or, if◌then◌else◌, leb, length, ltb, none, not, some, suc, true, zero, ℕ,
  ◌%◌, ◌&&◌, ◌+◌, ◌==◌, ◌||◌,
}
use ip2unix.Base.Text.{Bytes}

pub data MatchResult : Type 0 where
  matched not_matched end_of_input bad_class got_slash got_recursive : MatchResult

abbrev pub backslash : ℕ
backslash = 92

-- `pattern[i]`; the byte behind a string's last is its terminating NUL.
abbrev pub at : Bytes → ℕ → ℕ
at s i = get_or s i 0

-- `a <= b` on `char`, which is signed.
unfoldable pub char_le : ℕ → ℕ → Bool
char_le a b = leb ((a + 128) % 256) ((b + 128) % 256)

-- The variables of the loop in `match_cclass`.
pub record ClassState : Type 0 where
  pub nextpat : ℕ
  pub found : Bool
  pub rstart : Option ℕ

-- The second half of a round, on the character at `nextpat`.
unfoldable pub class_member : Bytes → ℕ → ℕ → Bool → Option ℕ → ClassState
unfolding char_le
class_member pattern pathchar n found (some start) = record {
  nextpat = n + 1;
  found = found || (char_le start pathchar && char_le pathchar (at pattern n));
  rstart = none;
}
class_member pattern pathchar n found none =
    if ltb (n + 1) (length pattern) && at pattern (n + 1) == b'-'
    then record { nextpat = n + 2; found = found; rstart = some (at pattern n) }
    else record { nextpat = n + 1; found = found || at pattern n == pathchar; rstart = none }

-- A round up to the loop's condition; `none` is the result Invalid.
unfoldable pub class_round : Bytes → ℕ → ClassState → Option ClassState
unfolding class_member
class_round pattern pathchar s =
    if leb (length pattern) s.nextpat || at pattern s.nextpat == b'/'
    then none
    else if at pattern s.nextpat == backslash
    then (if leb (length pattern) (s.nextpat + 1)
        then none
        else some (class_member pattern pathchar (s.nextpat + 1) s.found s.rstart))
    else some (class_member pattern pathchar s.nextpat s.found s.rstart)

-- A range that ended prematurely, like "[a-]", means its start and the dash.
unfoldable pub class_found : ℕ → ClassState → Bool
class_found pathchar s = elim s.rstart [
  | none ↦ s.found
  | some start ↦ s.found || pathchar == start || pathchar == b'-'
]

-- The condition of the `do` loop and what follows the loop; `again` is the next round.
unfoldable pub after_round :
    Bytes
    → ℕ
    → Bool
    → Option ClassState
    → (ClassState → Option (MatchResult × ℕ))
    → Option (MatchResult × ℕ)
unfolding class_found
after_round pattern pathchar negate none again = some (bad_class, 0)
after_round pattern pathchar negate (some t) again =
    let further = again t in
    let result = if negate then not (class_found pathchar t) else class_found pathchar t in
    if at pattern t.nextpat == b']'
    then some (if result then matched else not_matched, t.nextpat)
    else further

-- The `do` loop: the result, and where the pattern goes on.
unfoldable pub class_loop : ℕ → Bytes → ℕ → Bool → ClassState → Option (MatchResult × ℕ)
unfolding after_round
class_loop zero pattern pathchar negate s = none
class_loop (suc fuel) pattern pathchar negate s =
    after_round pattern pathchar negate (class_round pattern pathchar s)
      (class_loop fuel pattern pathchar negate)

-- `match_cclass` at the bracket `pattern_pos`; on Invalid the caller's position stays.
unfoldable pub match_cclass : Bytes → ℕ → ℕ → Option (MatchResult × ℕ)
unfolding class_loop class_round
match_cclass pattern pattern_pos pathchar =
    let start = λ (n : ℕ) (negate : Bool).
      class_loop (length pattern + 1) pattern pathchar negate
        (record { nextpat = n; found = false; rstart = none }) in
    if leb (length pattern) (pattern_pos + 1)
    then some (bad_class, pattern_pos)
    else if at pattern (pattern_pos + 1) == b'!'
    then (if leb (length pattern) (pattern_pos + 2)
        then some (bad_class, pattern_pos)
        else start (pattern_pos + 2) true)
    else start (pattern_pos + 1) false
