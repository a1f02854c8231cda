-- ===== src/Tests/Ports.antt =====
-- Ephemeral ports.
use ip2unix.Base.{List, [], arith, false, none, refl, some, ℕ, ◌∷◌, ◌≡◌, ◌≢◌}
use ip2unix.DynPorts.{DynPorts, acquire, is_reserved, reserve, rotate_from, rotate_port}
use ip2unix.DynPorts.Rotate.{IsEphemeral, acquire_lem, reserve_lem}
use ip2unix.DynPorts.Exhaust.{acquire-succeeds}

abbrev ports : DynPorts
ports = record { reserved = 1027 ∷ 5000 ∷ []; current = 65534; offset = 5 }

acquire_skips : acquire ports ≡ some (1032, record ports { current = 1032 })
unfolding acquire rotate_port rotate_from
acquire_skips = refl

acquire_lem_example :
    IsEphemeral 1032
    × (is_reserved ports.reserved 1032 ≡ false)
    × ◌≡◌ {A = ℕ} 1032 1032
    × (ports.reserved ≡ ports.reserved)
    × (ports.offset ≡ ports.offset)
acquire_lem_example = acquire_lem ports acquire_skips

reserve_zero :
    reserve ports 0 1027 ≡ some (1028, record ports { reserved = 1028 ∷ 1027 ∷ 5000 ∷ [] })
unfolding reserve rotate_port rotate_from
reserve_zero = refl

reserve_lem_example :
    (◌≢◌ {A = ℕ} 0 0 → ◌≡◌ {A = ℕ} 1028 0)
    × (◌≡◌ {A = ℕ} 0 0 → IsEphemeral 1028 × (is_reserved ports.reserved 1028 ≡ false))
    × ◌≡◌ {A = List ℕ} (1028 ∷ 1027 ∷ 5000 ∷ []) (1028 ∷ ports.reserved)
reserve_lem_example = reserve_lem ports 0 1027 (omega arith, omega arith) reserve_zero

free_port : is_reserved ports.reserved 1024 ≡ false
unfolding is_reserved
free_port = refl

acquire-succeeds_example : acquire ports ≢ none
acquire-succeeds_example =
    acquire-succeeds ports 25805 1024 (omega arith, omega arith) (omega arith) (omega arith)
      (omega arith, omega arith) free_port
