-- ===== src/Tests/Sockets.antt =====
-- The methods of a socket.
use ip2unix.Base.{
  List, Option, [], arith, if◌then◌else◌, none, not, refl, some, true, ℕ, ◌&&◌, ◌∷◌, ◌≡◌,
}
use ip2unix.Base.Decimal.{decimal}
use ip2unix.Base.Text.{codes}
use ip2unix.Base.Integer.{int_eq, pos, ℤ}
use ip2unix.Base.Dict.{find}
use ip2unix.Effect.{Ensures, Returns}
use ip2unix.Rules.{udp}
use ip2unix.SockAddr.{Destination, SockAddr, apply_addr, get_port, inet, unix}
use ip2unix.DynPorts
use ip2unix.Kernel.{minus_one}
use ip2unix.Socket.{State}
use ip2unix.Socket.Path.{
  Piece, format_sockpath, format_sockpath-written, host_part, meant, percent, plain, port_part,
  stray, type_part, written,
}
use ip2unix.Socket.Unix.{make_unix}
use ip2unix.Socket.Unix.Convert.{Converts, make_unix-Converts}
use ip2unix.Socket.Bind
use ip2unix.Socket.Bind.Outcome.{Bound, bind-Bound}
use ip2unix.Socket.Connect
use ip2unix.Socket.Peers
use ip2unix.Socket.Peers.Names.{getpeername-connect, getsockname-bind}
use ip2unix.Socket.Peers.RoundTrip.{Leads, rewrite_src-Leads}
use ip2unix.Socket.Close
use ip2unix.Socket.Close.Registered.{close-unregisters, dup-registers}
use ip2unix.Tests.Addresses.{net}
use ip2unix.Tests.Kernels.{kernel, sock, state_with}

abbrev local : SockAddr
local = inet 80 2130706433

abbrev pieces : List Piece
pieces = plain b'/' ∷ host_part ∷ plain b'-' ∷ port_part ∷ percent ∷ type_part ∷ stray b'x' ∷ []

format_sockpath-written_example :
    format_sockpath net udp local (written pieces) ≡ meant net udp local pieces
format_sockpath-written_example = format_sockpath-written net udp local pieces (omega arith)

formatted :
    format_sockpath net udp local (codes "/run/%a:%p-%t%%%q%") ≡ codes "/run/127.0.0.1:80-udp%%q%"
unfolding format_sockpath decimal
formatted = refl

abbrev start : State ℕ
start = state_with []

make_unix-Converts_example : Returns (Converts kernel start) (make_unix kernel none start)
make_unix-Converts_example = make_unix-Converts kernel none start

close-unregisters_example :
    Returns
      (λ (ret : ℤ) (t : State ℕ). (find int_eq t.world.registry (pos 6) ≡ some 0) × (ret ≡ pos 0))
      (Close.close kernel start)
unfolding int_eq find
close-unregisters_example = close-unregisters kernel start (pos 6)

dup-registers_example :
    Returns
      (λ (newfd : ℤ) (t : State ℕ).
        (t.self ≡ sock)
        × (find int_eq t.world.registry (pos 8)
            ≡ (if not (int_eq newfd minus_one) && int_eq newfd (pos 8) then some 0 else none)))
      (Close.dup kernel start)
unfolding int_eq find
dup-registers_example = dup-registers kernel start (pos 8)

bind-Bound_example :
    Ensures
      (Bound kernel (DynPorts.create 2000 11) (inet 0 1))
      (Bind.bind kernel (inet 0 1) (codes "/run/%p") start)
bind-Bound_example = bind-Bound kernel (inet 0 1) (codes "/run/%p") start

abbrev both : Destination
both = record { has_addr = true; has_addrlen = true }

-- The socket with a binding, and a packet from a path.
abbrev bound_start : State ℕ
bound_start = record start { self = record sock { binding = some local } }

rewrite_src-Leads_example :
    Ensures
      (Leads kernel (codes "/run/peer") both)
      (Peers.rewrite_src kernel (unix (codes "/run/peer")) both bound_start)
unfolding find
rewrite_src-Leads_example =
    rewrite_src-Leads kernel local (codes "/run/peer") both bound_start refl refl

-- The state that a call leaves.
abbrev state_after : Option (ℤ × State ℕ) → State ℕ
state_after none = start
state_after (some (ret, t)) = t

abbrev after_bind : State ℕ
after_bind = state_after (Bind.bind kernel local (codes "/run/%p") start)

bind_local : Bind.bind kernel local (codes "/run/%p") start ≡ some (pos 0, after_bind)
unfolding Bind.bind int_eq decimal
bind_local = refl

getsockname-bind_example :
    Peers.getsockname kernel both after_bind ≡ some ((pos 0, apply_addr local both), after_bind)
unfolding get_port
getsockname-bind_example =
    getsockname-bind kernel local (codes "/run/%p") both 79 start after_bind refl bind_local

abbrev after_connect : State ℕ
after_connect = state_after (Connect.connect kernel local (codes "/run/%p") start)

connect_local : Connect.connect kernel local (codes "/run/%p") start ≡ some (pos 0, after_connect)
unfolding Connect.connect int_eq decimal DynPorts.rotate_port DynPorts.rotate_from
connect_local = refl

getpeername-connect_example :
    Peers.getpeername kernel both after_connect
    ≡ some ((pos 0, apply_addr local both), after_connect)
getpeername-connect_example =
    getpeername-connect kernel local (codes "/run/%p") both start after_connect connect_local
