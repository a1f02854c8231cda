-- ===== src/GlobPath.antt =====
-- src/globpath.cc: shell patterns over paths. A position is an index into the pattern or the path.
-- Every loop takes fuel; `none` means that it ran out.
pub mod Class
pub mod Progress
pub mod Fixed
pub mod Component
pub mod Total
pub mod ClassText
pub mod ClassRound
pub mod ClassSound
pub mod Meaning
pub mod Loose
pub mod Sound
pub mod Skip
pub mod Norec
pub mod Accepts
use mathlib.Core.Option
use ip2unix.Base.{
  Bool, Option, [], drop, false, if◌then◌else◌, is_some, leb, length, ltb, map, none, some, suc,
  true, zero, ℕ, ◌&&◌, ◌+◌, ◌==◌, ◌||◌, ◌∷◌,
}
use ip2unix.Base.Text.{Bytes}
use ip2unix.GlobPath.Class.{
  MatchResult, at, backslash, bad_class, end_of_input, got_recursive, got_slash, match_cclass,
  matched, not_matched,
}

-- The positions that a matching function leaves in its arguments.
pub record Positions : Type 0 where
  pub patpos : ℕ
  pub pathpos : ℕ

-- An escaped slash of the pattern, at a slash of the path.
unfoldable pub skip_escape : Bytes → ℕ → ℕ
skip_escape pattern n =
    if at pattern n == backslash && ltb (n + 1) (length pattern) && at pattern (n + 1) == b'/'
    then n + 1
    else n

-- What `match_fixed` does with the result of `match_cclass` at `patpos`: the position in the pattern
-- behind what was matched, or `some none` for a mismatch. An invalid class counts for one character.
unfoldable pub after_class : ℕ → Option (MatchResult × ℕ) → Option (Option ℕ)
after_class patpos none = none
after_class patpos (some (not_matched, n)) = some none
after_class patpos (some (bad_class, n)) = some (some (patpos + 1))
after_class patpos (some (_, n)) = some (some (n + 1))

-- The same for any character of the pattern.
unfoldable pub match_char : Bytes → ℕ → ℕ → Option (Option ℕ)
match_char pattern patpos pathchar =
    if at pattern patpos == b'['
    then after_class patpos (match_cclass pattern patpos pathchar)
    else if at pattern patpos == b'?'
    then some (some (patpos + 1))
    else if at pattern patpos == backslash
    then (if leb (length pattern) (patpos + 1)
        then some none
        else if at pattern (patpos + 1) == pathchar
        then some (some (patpos + 2))
        else some none)
    else if at pattern patpos == pathchar
    then some (some (patpos + 1))
    else some none

-- The end of a round of `match_fixed`.
unfoldable pub after_char :
    Positions
    → ℕ
    → Option (Option ℕ)
    → (Positions → Option (MatchResult × Positions))
    → Option (MatchResult × Positions)
after_char old pathpos none again = none
after_char old pathpos (some none) again = some (not_matched, old)
after_char old pathpos (some (some n)) again = again (record { patpos = n; pathpos = pathpos + 1 })

-- The `while` loop of `match_fixed`; `old` are the caller's positions, which stay on a mismatch and
-- at the end of the input.
unfoldable pub fixed_loop :
    ℕ → Bytes → Bytes → Positions → Positions → Option (MatchResult × Positions)
unfolding skip_escape after_char
fixed_loop zero pattern path old p = none
fixed_loop (suc fuel) pattern path old p =
    let further =
      after_char old p.pathpos (match_char pattern p.patpos (at path p.pathpos))
        (fixed_loop fuel pattern path old) in
    if leb (length pattern) p.patpos
    then some (if leb (length path) p.pathpos then matched else not_matched, p)
    else if at pattern p.patpos == b'*'
    then some (matched, p)
    else if leb (length path) p.pathpos
    then some (end_of_input, old)
    else if at path p.pathpos == b'/'
    then some (got_slash, record p { patpos = skip_escape pattern p.patpos })
    else further

unfoldable pub match_fixed : Bytes → Bytes → Positions → Option (MatchResult × Positions)
unfolding fixed_loop match_char after_class match_cclass
match_fixed pattern path p = fixed_loop (length pattern + 1) pattern path p p

-- `for (anum = 0; pattern[patpos] == '*'; ++anum)`: how many wildcards stand at a position. Its
-- test for the end of the pattern never holds, as no wildcard stands there.
unfoldable pub count_stars : ℕ → Bytes → ℕ → ℕ
count_stars zero pattern n = 0
count_stars (suc fuel) pattern n =
    let more = suc (count_stars fuel pattern (n + 1)) in if at pattern n == b'*' then more else 0

-- How the `for (;;)` loop behind a wildcard ends: `match_norec` returns Matched, or goes on.
pub data StarEnd : Type 0 where
  returns goes_on : Positions → StarEnd

-- What that loop does with a result of `match_fixed`. Each mismatch lets the wildcard take one more
-- character; `again` is the next round.
unfoldable pub after_attempt :
    Bytes → Option (MatchResult × Positions) → (Positions → Option StarEnd) → Option StarEnd
after_attempt pattern none again = none
after_attempt pattern (some (not_matched, q)) again = again (record q { pathpos = q.pathpos + 1 })
after_attempt pattern (some (end_of_input, q)) again =
    some (if leb (length pattern) q.patpos then returns q else goes_on q)
after_attempt pattern (some (_, q)) again = some (goes_on q)

unfoldable pub star_loop : ℕ → Bytes → Bytes → Positions → Option StarEnd
unfolding after_attempt
star_loop zero pattern path p = none
star_loop (suc fuel) pattern path p =
    after_attempt pattern (match_fixed pattern path p) (star_loop fuel pattern path)

abbrev pub Outcome : Type 0
Outcome = Option (MatchResult × Positions)

-- What `match_norec` does behind a wildcard's loop; `again` is its next round.
unfoldable pub after_star : Option StarEnd → (Positions → Outcome) → Outcome
after_star none again = none
after_star (some (returns q)) again = some (matched, q)
after_star (some (goes_on q)) again = again q

-- What it does with the result of `match_fixed`; `again` takes the new `last_slash` too.
unfoldable pub after_fixed : Bytes → Positions → ℕ → Outcome → (ℕ → Positions → Outcome) → Outcome
after_fixed pattern old last_slash none again = none
after_fixed pattern old last_slash (some (got_slash, q)) again =
    let component =
      again (q.patpos + 1) (record { patpos = q.patpos + 1; pathpos = q.pathpos + 1 }) in
    if at pattern q.patpos == b'/' then component else some (not_matched, old)
after_fixed pattern old last_slash (some (end_of_input, q)) again = some (not_matched, old)
after_fixed pattern old last_slash (some (not_matched, q)) again = some (not_matched, old)
after_fixed pattern old last_slash (some (_, q)) again = again last_slash q

-- The `while` loop of `match_norec`, from the caller's positions `old`.
unfoldable pub norec_loop : ℕ → Bytes → Bytes → Positions → ℕ → Positions → Outcome
unfolding after_star after_fixed
norec_loop zero pattern path old last_slash p = none
norec_loop (suc fuel) pattern path old last_slash p =
    let behind = p.patpos + count_stars (length pattern + 1) pattern p.patpos in
    let wildcard =
      after_star (star_loop (length path + 2) pattern path (record p { patpos = behind }))
        (norec_loop fuel pattern path old last_slash) in
    let fixed =
      after_fixed pattern old last_slash (match_fixed pattern path p)
        (norec_loop fuel pattern path old) in
    if leb (length pattern) p.patpos
    then some (if leb (length path) p.pathpos then (matched, p) else (not_matched, old))
    else if at pattern p.patpos == b'*'
    then (if behind == p.patpos + 2 && last_slash + 2 == behind && at pattern behind == b'/'
        then some (got_recursive, record p { patpos = behind + 1 })
        else wildcard)
    else fixed

unfoldable pub match_norec : Bytes → Bytes → Positions → Option (MatchResult × Positions)
unfolding norec_loop star_loop count_stars match_fixed
match_norec pattern path p = norec_loop (length pattern + 1) pattern path p p.patpos p

-- `find_first_of('/')`.
unfoldable pub find_slash : Bytes → Option ℕ
find_slash [] = none
find_slash (c ∷ s) = if c == b'/' then some 0 else Option.map suc (find_slash s)

-- The offset behind the next slash.
unfoldable pub skip_component : Bytes → ℕ → Option ℕ
unfolding find_slash
skip_component path pathpos = Option.map (λ pos. pathpos + pos + 1) (find_slash (drop pathpos path))

-- What stands behind the last slash.
unfoldable pub basename : Bytes → Bytes
unfolding find_slash
basename [] = []
basename (c ∷ s) = if c == b'/' || is_some (find_slash s) then basename s else c ∷ s

-- What the loop of `match` does with a result; `again` is its next round.
unfoldable pub after_norec : Bytes → Bool → Outcome → (Positions → Option Bool) → Option Bool
unfolding skip_component
after_norec path is_recursive none again = none
after_norec path is_recursive (some (matched, q)) again = some true
after_norec path is_recursive (some (got_recursive, q)) again = again q
after_norec path false (some (_, q)) again = some false
after_norec path true (some (_, q)) again = elim (skip_component path q.pathpos) [
  | none ↦ some false
  | some n ↦ again (record q { pathpos = n })
]

-- The loop of `match`. Whatever goes on is recursive from then on.
unfoldable pub match_loop : ℕ → Bytes → Bytes → Bool → Positions → Option Bool
unfolding match_norec after_norec
match_loop zero pattern path is_recursive p = none
match_loop (suc fuel) pattern path is_recursive p =
    after_norec path is_recursive (match_norec pattern path p) (match_loop fuel pattern path true)

-- The whole matcher. A pattern without a slash is matched against the last component.
unfoldable pub globpath : Bytes → Bytes → Option Bool
unfolding match_loop basename
globpath pattern path =
    let part = if is_some (find_slash pattern) then path else basename path in
    match_loop (length pattern + length part + 2) pattern part false
      (record { patpos = 0; pathpos = 0 })
