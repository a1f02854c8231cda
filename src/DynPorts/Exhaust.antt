-- ===== src/DynPorts/Exhaust.antt =====
-- The exception of `rotate_port` means what it says: no ephemeral port is left.
use ip2unix.Base.{
  List, ap, arith, false, none, suc, true, zero, ℕ, ◌%◌, ◌*◌, ◌+◌, ◌-◌, ◌/◌, ◌<◌, ◌∙◌, ◌≡◌, ◌≢◌,
}
use ip2unix.DynPorts.{DynPorts, acquire, bounds, is_reserved, next_port, rotate_from, rotate_port}
use ip2unix.DynPorts.Rotate.{IsEphemeral, next_port-IsEphemeral}

-- The port of round `k`.
orbit : ℕ → ℕ → ℕ → ℕ
orbit off zero port = port
orbit off (suc k) port = orbit off k (next_port port off)

orbit-IsEphemeral : (k off port : ℕ) → IsEphemeral port → IsEphemeral (orbit off k port)
unfolding orbit
orbit-IsEphemeral zero off port h = h
orbit-IsEphemeral (suc k) off port h = orbit-IsEphemeral k off _ (next_port-IsEphemeral port off)

-- A loop that ends in the exception has found every port of its rounds reserved.
rotate_from-none :
    (rounds k : ℕ) (reserved : List ℕ) (port off : ℕ)
    → rotate_from rounds reserved port off ≡ none
    → k < rounds
    → is_reserved reserved (orbit off (suc k) port) ≡ true
unfolding rotate_from orbit
rotate_from-none zero k reserved port off e h = absurd (omega arith)
rotate_from-none (suc rounds) zero reserved port off e h = ground arith
rotate_from-none (suc rounds) (suc k) reserved port off e h =
    ground (arith, rotate_from-none rounds k reserved (next_port port off) off)

next_port_lem :
    (port off : ℕ)
    → IsEphemeral port
    → off < 65536
    → next_port port off ≡ (port - 1024 + off) % 64512 + 1024
unfolding next_port
next_port_lem port off h l = omega arith

orbit_lem :
    (k off port : ℕ)
    → IsEphemeral port
    → off < 65536
    → orbit off k port ≡ (port - 1024 + k * off) % 64512 + 1024
unfolding orbit
orbit_lem zero off port h l = omega arith
orbit_lem (suc k) off port h l = omega (
  arith,
  orbit_lem k off (next_port port off) (next_port-IsEphemeral port off) l,
  next_port_lem port off h l,
)

-- With an inverse of the offset modulo the size of the range, a target is met in some round.
module _ (off inverse port target : ℕ) (unit : off * inverse % 64512 ≡ 1) where
  distance : ℕ
  distance = target + 64512 - port

  -- The round, counted from 0.
  round : ℕ
  round = (distance * inverse + 64511) % 64512

  round_product :
      (j q : ℕ)
      → suc round + 64512 * j ≡ distance * inverse + 64512
      → off * inverse ≡ 1 + 64512 * q
      → suc round * off + 64512 * (j * off) ≡ distance + 64512 * (distance * q) + 64512 * off
  round_product j q e f = omega (arith, ap (λ (t : ℕ). t * off) e, ap (λ (t : ℕ). distance * t) f)

  meets :
      IsEphemeral port
      → IsEphemeral target
      → (port - 1024 + suc round * off) % 64512 + 1024 ≡ target
  unfolding distance
  meets h t =
      let q : ℕ = off * inverse / 64512 in
      let j : ℕ = (distance * inverse + 64511) / 64512 in
      omega (arith, round_product j q (unfold round in omega arith) (omega arith))

acquire-none :
    (ports : DynPorts)
    → acquire ports ≡ none
    → rotate_from bounds ports.reserved ports.current ports.offset ≡ none
unfolding acquire rotate_port
acquire-none ports e = ground arith

-- If the offset is a unit modulo 64512 and some ephemeral port is free, `acquire` succeeds: the
-- exception is thrown only when every ephemeral port is reserved.
pub acquire-succeeds :
    (ports : DynPorts) (inverse free : ℕ)
    → IsEphemeral ports.current
    → ports.offset < 65536
    → ports.offset * inverse % 64512 ≡ 1
    → IsEphemeral free
    → is_reserved ports.reserved free ≡ false
    → acquire ports ≢ none
acquire-succeeds ports inverse free c o u t r e =
    let k = round ports.offset inverse ports.current free u in
    let found =
      rotate_from-none bounds k ports.reserved ports.current ports.offset (acquire-none ports e)
        (unfold round in omega arith) in
    let there =
      orbit_lem (suc k) ports.offset ports.current c o
      ∙ meets ports.offset inverse ports.current free u c t in
    cc
