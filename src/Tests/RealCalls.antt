-- ===== src/Tests/RealCalls.antt =====
-- Calls of the functions of libc.
use ip2unix.Base.{List, Option, [], none, refl, some, ℕ, ◌+◌, ◌∷◌, ◌≡◌}
use ip2unix.Base.Text.{Bytes, bytes_eq, codes}
use ip2unix.Base.Dict.{find}
use ip2unix.RealCalls.{Handle, Linker, apply, create, destroy, library, resolve}
use ip2unix.RealCalls.Cache.{apply_all, apply_all-direct, direct, opened, without_table}

-- The numbers of the symbols, by their names.
abbrev symbol : Handle → Bytes → Option ℕ
symbol handle name = find bytes_eq ((codes "close", 3) ∷ (codes "dup", 4) ∷ []) name

-- The state counts the calls.
abbrev linker : Linker ℕ
linker = record {
  dlopen = λ libname os. (some 5, os + 1);
  dlsym = λ handle name os. (symbol handle name, os);
  dlclose = λ handle os. os + 1;
}

abbrev adds : ℕ → ℕ → ℕ × ℕ
adds fptr os = (fptr + os, os + 1)

abbrev closes_twice : List (Bytes × (ℕ → ℕ → ℕ × ℕ))
closes_twice = (codes "close", adds) ∷ (codes "dup", adds) ∷ (codes "close", adds) ∷ []

keeps_symbols :
    apply_all linker symbol closes_twice (opened linker none 0)
    ≡ some (
      4 ∷ 6 ∷ 6 ∷ [],
      record { os = 4; handle = library 5; fptrs = (codes "dup", 4) ∷ (codes "close", 3) ∷ [] },
    )
unfolding apply create
keeps_symbols = refl

exits_without_symbol : resolve linker (codes "bind") (opened linker none 0) ≡ none
unfolding resolve create
exits_without_symbol = refl

closes_library : destroy linker (library 5) 1 ≡ 2
unfolding destroy
closes_library = refl

apply_all-direct_example :
    without_table linker symbol (apply_all linker symbol closes_twice (opened linker none 0))
    ≡ direct linker symbol (create linker none 0).0 closes_twice (create linker none 0).1
apply_all-direct_example =
    apply_all-direct linker symbol (λ handle name os. refl) none 0 closes_twice
