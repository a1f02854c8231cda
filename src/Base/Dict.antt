-- ===== src/Base/Dict.antt =====
-- `std::unordered_map` and `std::unordered_set` as lists; a test for equality of the keys is given.
use mathlib.Core.Path.{◌≡◌}
use mathlib.Core.Logic.{◌↔◌}
use mathlib.Core.Bool.{Bool, true, false, ◌||◌}
use mathlib.Core.Option.{Option, none, some}
use mathlib.Core.List.{List, [], ◌∷◌}
use native.Mathlib.Omega.{arith}
use ip2unix.Base.Tests.{if◌then◌else◌}

module _ {K : Type 0} (eq : K → K → Bool) where
  unfoldable pub has : List K → K → Bool
  has [] j = false
  has (k ∷ s) j = eq k j || has s j

  unfoldable pub remove : List K → K → List K
  remove [] j = []
  remove (k ∷ s) j = let rest = remove s j in if eq k j then rest else k ∷ rest

  module _ {V : Type 0} where
    unfoldable pub find : List (K × V) → K → Option V
    find [] j = none
    find ((k, v) ∷ m) j = if eq k j then some v else find m j

    -- `m.erase(k)`.
    unfoldable pub erase : List (K × V) → K → List (K × V)
    erase [] j = []
    erase ((k, v) ∷ m) j = let rest = erase m j in if eq k j then rest else (k, v) ∷ rest

    -- `m[k] = v`.
    unfoldable pub put : List (K × V) → K → V → List (K × V)
    unfolding erase
    put m k v = (k, v) ∷ erase m k

-- Their laws, for a test that decides equality.
module _ {K : Type 0} (eq : K → K → Bool) (eq_iff : (a b : K) → (eq a b ≡ true) ↔ (a ≡ b)) where
  pub has-remove :
      (s : List K) (k j : K) → has eq (remove eq s k) j ≡ (if eq k j then false else has eq s j)
  unfolding has remove
  has-remove [] k j = ground arith
  has-remove (i ∷ s) k j = ground (arith, eq_iff i k, eq_iff i j, eq_iff k j, has-remove s k j)

  module _ {V : Type 0} where
    pub find-erase :
        (m : List (K × V)) (k j : K)
        → find eq (erase eq m k) j ≡ (if eq k j then none else find eq m j)
    unfolding find erase
    find-erase [] k j = ground arith
    find-erase ((i, v) ∷ m) k j =
        ground (arith, eq_iff i k, eq_iff i j, eq_iff k j, find-erase m k j)

    pub find-put :
        (m : List (K × V)) (k j : K) (v : V)
        → find eq (put eq m k v) j ≡ (if eq k j then some v else find eq m j)
    unfolding find put
    find-put m k j v = ground (arith, find-erase m k j)
