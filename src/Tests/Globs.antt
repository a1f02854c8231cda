-- ===== src/Tests/Globs.antt =====
-- Shell patterns, as in tests/unit/globpath.cc.
use Prim.Native.String.{String}
use ip2unix.Base.{Bool, Option, arith, false, none, refl, some, true, ◌≡◌, ◌≢◌}
use ip2unix.Base.Text.{Bytes, codes}
use ip2unix.GlobPath.Loose.{Meant}
use ip2unix.GlobPath.Accepts.{globpath-Meant}
use ip2unix.GlobPath.{Positions, find_slash, globpath, match_norec}
use ip2unix.GlobPath.Component.{NorecOk, match_norec-NorecOk}
use ip2unix.GlobPath.Total.{globpath-total}

abbrev glob : String → String → Option Bool
glob pattern path = globpath (codes pattern) (codes path)

globs_that_match :
    (glob "a/**/d" "a/b/c/d" ≡ some true)
    × (glob "*.sock" "/run/x.sock" ≡ some true)
    × (glob "/run/[a-c]?o" "/run/bxo" ≡ some true)
    × (glob "**/foo" "a/b/foo" ≡ some true)
    × (glob "/*/x" "/abc/x" ≡ some true)
    × (glob "/run/*" "/run/a/b" ≡ some true)
unfolding globpath
globs_that_match = (refl, refl, refl, refl, refl, refl)

globs_that_do_not :
    (glob "a/**/d" "a/b/c/e" ≡ some false)
    × (glob "/a/[!b]" "/a/b" ≡ some false)
    × (glob "/a/b" "/a/bc" ≡ some false)
unfolding globpath
globs_that_do_not = (refl, refl, refl)

globpath-total_example : globpath (codes "a/**/[!b-d]*") (codes "a/b/c/dx/e") ≢ none
globpath-total_example = globpath-total (codes "a/**/[!b-d]*") (codes "a/b/c/dx/e")

abbrev start : Positions
start = record { patpos = 0; pathpos = 0 }

match_norec-NorecOk_example :
    NorecOk
      (codes "a*/**/b")
      (codes "ab/c/b")
      start
      (match_norec (codes "a*/**/b") (codes "ab/c/b") start)
match_norec-NorecOk_example =
    match_norec-NorecOk (codes "a*/**/b") (codes "ab/c/b") start
      (record { pat_inside = omega arith; path_inside = omega arith })

-- The end of a pattern with a wildcard leaves a rest of the path.
glob_leaves_rest : glob "*.sock" "/run/x.sockets" ≡ some true
unfolding globpath
glob_leaves_rest = refl

abbrev some_pattern : Bytes
some_pattern = codes "a/**/[b-d]?*"

abbrev some_path : Bytes
some_path = codes "a/x/y/czz"

path_accepted : globpath some_pattern some_path ≡ some true
unfolding globpath
path_accepted = refl

globpath-Meant_example : Meant some_pattern some_path false 0 0
unfolding find_slash
globpath-Meant_example = globpath-Meant some_pattern some_path path_accepted
