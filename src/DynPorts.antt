-- ===== src/DynPorts.antt =====
-- src/dynports/dynports.cc: ephemeral ports handed out along a random prime offset.
-- What `RNG::get` returns is an argument; the table of offsets is generated by the build.
pub mod Rotate
pub mod Exhaust
use mathlib.Core.Option
use ip2unix.Base.{
  Bool, List, Option, [], false, if◌then◌else◌, map, none, some, suc, zero, ℕ, ◌%◌, ◌+◌, ◌-◌, ◌==◌,
  ◌^◌, ◌||◌, ◌∷◌,
}

-- `reserved` is a set, here the list of what was inserted.
pub record DynPorts : Type 0 where
  pub reserved : List ℕ
  pub current : ℕ
  pub offset : ℕ

-- `DynPorts()`, with the random port and the random offset.
abbrev pub create : ℕ → ℕ → DynPorts
create random_port random_offset = record {
  reserved = [];
  current = random_port;
  offset = random_offset;
}

unfoldable pub is_reserved : List ℕ → ℕ → Bool
is_reserved [] port = false
is_reserved (p ∷ reserved) port = p == port || is_reserved reserved port

abbrev pub bounds : ℕ
bounds = 64512

-- One round: `static_cast<uint32_t>(port) - 1024` and the sum wrap around at 2 ^ 32.
unfoldable pub next_port : ℕ → ℕ → ℕ
next_port port off = ((port + 2 ^ 32 - 1024) % 2 ^ 32 + off) % 2 ^ 32 % bounds + 1024

-- The loop, with `rounds` left before `++tries > bounds` throws; `none` is the exception.
unfoldable pub rotate_from : ℕ → List ℕ → ℕ → ℕ → Option ℕ
unfolding is_reserved next_port
rotate_from zero reserved port off = none
rotate_from (suc rounds) reserved port off =
    let port' = next_port port off in
    let further = rotate_from rounds reserved port' off in
    if is_reserved reserved port' then further else some port'

unfoldable pub rotate_port : DynPorts → ℕ → ℕ → Option ℕ
rotate_port ports port off = rotate_from bounds ports.reserved port off

-- `none`: an exception, and the object is as before.
unfoldable pub acquire : DynPorts → Option (ℕ × DynPorts)
acquire ports = elim (rotate_port ports ports.current ports.offset) [
  | none ↦ none
  | some port ↦ some (port, record ports { current = port })
]

-- `this->reserved.emplace(port)`, and the port returned.
abbrev pub emplace : DynPorts → ℕ → ℕ × DynPorts
emplace ports port = (port, record ports { reserved = port ∷ ports.reserved })

-- `reserve(port)`; `random_port` is what `get_random_port` returns if it is asked.
unfoldable pub reserve : DynPorts → ℕ → ℕ → Option (ℕ × DynPorts)
reserve ports port random_port =
    if port == 0
    then (if is_reserved ports.reserved random_port
        then Option.map (emplace ports) (rotate_port ports random_port 1)
        else some (emplace ports random_port))
    else some (emplace ports port)
