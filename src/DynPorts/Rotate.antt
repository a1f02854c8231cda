-- ===== src/DynPorts/Rotate.antt =====
-- Where `rotate_port` ends: a free port of the ephemeral range, or an exception.
use ip2unix.Base.{
  Bool-cases, List, Option, arith, false, inl, inr, none, some, suc, zero, ℕ, ◌∷◌, ◌≡◌, ◌≢◌, ◌≤◌,
}
use ip2unix.DynPorts.{
  DynPorts, acquire, bounds, is_reserved, next_port, reserve, rotate_from, rotate_port,
}

abbrev pub IsEphemeral : ℕ → Type 0
IsEphemeral port = (1024 ≤ port) × (port ≤ 65535)

pub next_port-IsEphemeral : (port off : ℕ) → IsEphemeral (next_port port off)
unfolding next_port
next_port-IsEphemeral port off = (omega arith, omega arith)

-- A free ephemeral port, if one was found.
abbrev IsFree : List ℕ → Option ℕ → Type 0
IsFree reserved none = Unit
IsFree reserved (some r) = IsEphemeral r × (is_reserved reserved r ≡ false)

rotate_from-IsFree :
    (rounds : ℕ) (reserved : List ℕ) (port off : ℕ)
    → IsFree reserved (rotate_from rounds reserved port off)
unfolding rotate_from
rotate_from-IsFree zero reserved port off = tt
rotate_from-IsFree (suc rounds) reserved port off =
    elim (Bool-cases (is_reserved reserved (next_port port off))) [
      | inl taken ↦ rw taken (rotate_from-IsFree rounds reserved (next_port port off) off)
      | inr free ↦ rw free (next_port-IsEphemeral port off, free)
    ]

pub rotate_port-IsFree :
    (ports : DynPorts) (port off : ℕ) → IsFree ports.reserved (rotate_port ports port off)
unfolding rotate_port
rotate_port-IsFree ports port off = rotate_from-IsFree bounds ports.reserved port off

-- A port that `acquire` hands out is ephemeral and not reserved, and becomes the current one; the
-- reservations and the offset stay.
pub acquire_lem :
    (ports : DynPorts) {port : ℕ} {ports' : DynPorts}
    → acquire ports ≡ some (port, ports')
    → IsEphemeral port
      × (is_reserved ports.reserved port ≡ false)
      × (ports'.current ≡ port)
      × (ports'.reserved ≡ ports.reserved)
      × (ports'.offset ≡ ports.offset)
unfolding acquire
acquire_lem ports e = ground (arith, rotate_port-IsFree ports ports.current ports.offset)

-- `reserve` returns the port that was asked for, or a free ephemeral port for 0; it is reserved
-- from then on, and so is what was reserved before.
pub reserve_lem :
    (ports : DynPorts) (port random_port : ℕ) {r : ℕ} {ports' : DynPorts}
    → IsEphemeral random_port
    → reserve ports port random_port ≡ some (r, ports')
    → ((port ≢ 0 → r ≡ port)
        × (port ≡ 0 → IsEphemeral r × (is_reserved ports.reserved r ≡ false))
        × (ports'.reserved ≡ r ∷ ports.reserved))
unfolding reserve
reserve_lem ports port random_port h e = ground (arith, rotate_port-IsFree ports random_port 1)
