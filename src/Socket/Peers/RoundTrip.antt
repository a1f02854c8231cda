-- ===== src/Socket/Peers/RoundTrip.antt =====
-- Peers of datagram sockets: an address that was made up for a path leads back to that path.
use ip2unix.Base.{Bool, Option, arith, false, none, refl, some, true, ℕ, ◌++◌, ◌≡◌}
use ip2unix.Base.Text.{Bytes, bytes_eq, bytes_eq_iff}
use ip2unix.Base.Dict.{find, put}
use ip2unix.Effect.{>>=-Ensures, Ensures}
use ip2unix.Kernel.{Applied, Kernel}
use ip2unix.SockAddr.{
  Destination, SockAddr, apply_addr, bytes32, equals, family, inet, inet6, link_local,
  set_host_addr, set_random_host, unix, unix_addr, zero_bytes,
}
use ip2unix.Socket.{State}
use ip2unix.Socket.Unix.{acquire_port}
use ip2unix.Socket.Peers.{enter_peer, new_peer, random_peer, rewrite_dest_peermap, rewrite_src}

-- Addresses with a host are equal to themselves; those of other families are not.
abbrev SelfEqual : Option SockAddr → Type 0
SelfEqual none = Unit
SelfEqual (some a) = equals a a ≡ true

self_equal6 : (p : ℕ) (a : Bytes) (f i : ℕ) → equals (inet6 p a f i) (inet6 p a f i) ≡ true
unfolding equals
self_equal6 p a f i = ground (arith, bytes_eq_iff a a)

set_host_addr-SelfEqual : (a b : SockAddr) → SelfEqual (set_host_addr a b)
unfolding set_host_addr equals
set_host_addr-SelfEqual (inet p a) (inet q b) = ground arith
set_host_addr-SelfEqual (inet6 p a f i) (inet6 q b f' i') = self_equal6 p b f i
set_host_addr-SelfEqual _ _ = tt

set_random_host-SelfEqual : (a : SockAddr) (n : ℕ) → SelfEqual (set_random_host a n)
unfolding set_random_host equals
set_random_host-SelfEqual (inet p a) n = ground arith
set_random_host-SelfEqual (inet6 p a f i) n =
    self_equal6 p (link_local ++ (zero_bytes 8 ++ bytes32 n)) f i
set_random_host-SelfEqual _ _ = tt

module _ {S : Type 0} (kernel : Kernel S) where
  -- What the two first steps of `new_peer` keep.
  abbrev Keeps : SockAddr → State S → Type 0
  Keeps local t = t.self.binding ≡ some local

  acquire_port-Keeps :
      (local : SockAddr) (s : State S)
      → Keeps local s
      → Ensures (λ (n : ℕ) (t : State S). Keeps local t) (acquire_port kernel s)
  unfolding acquire_port
  acquire_port-Keeps local s h = ground arith

  random_peer-Keeps :
      (local peer : SockAddr) (s : State S)
      → Keeps local s
      → Ensures
          (λ (host : Option SockAddr) (t : State S). Keeps local t × SelfEqual host)
          (random_peer kernel local peer s)
  unfolding random_peer
  random_peer-Keeps local peer s h = ground (
    arith,
    set_host_addr-SelfEqual peer local,
    set_random_host-SelfEqual peer (kernel.random_host (family peer) s.world.process.os).0,
  )

  -- A result of `rewrite_src` for `path` in the state `t`, and what follows from it.
  abbrev pub Leads : Bytes → Destination → Bool × Applied → State S → Type 0
  Leads path to (false, applied) t = Unit
  Leads path to (true, applied) t =
      (peer : SockAddr) × (applied ≡ apply_addr peer to)
      × (rewrite_dest_peermap kernel peer t ≡ some (unix_addr path, t))
      × (rewrite_src kernel (unix path) to t ≡ some ((true, applied), t))

  enter_peer-Leads :
      (local : SockAddr) (path : Bytes) (to : Destination) (host : Option SockAddr) (u : State S)
      → Keeps local u
      → SelfEqual host
      → Ensures (Leads path to) (enter_peer kernel path to host u)
  unfolding enter_peer rewrite_src rewrite_dest_peermap find put
  enter_peer-Leads local path to none u h e = tt
  enter_peer-Leads local path to (some peer) u h e =
      (peer, refl, rw e refl, ground (arith, bytes_eq_iff path path))

  new_peer-Leads :
      (local : SockAddr) (path : Bytes) (to : Destination) (s : State S)
      → Keeps local s
      → Ensures (Leads path to) (new_peer kernel local path to s)
  unfolding new_peer rewrite_src rewrite_dest_peermap
  new_peer-Leads local path to s h =
      >>=-Ensures (λ (n : ℕ) (t : State S). Keeps local t) (Leads path to) (acquire_port kernel) _ s
        (acquire_port-Keeps local s h)
        λ port t k.
          >>=-Ensures (λ (host : Option SockAddr) (u : State S). Keeps local u × SelfEqual host)
            (Leads path to) (random_peer kernel local _) _ t (random_peer-Keeps local _ t k)
            λ host u e. enter_peer-Leads local path to host u e.0 e.1

  -- A packet from a path that was not seen before gets an address, unless none can be made up: a
  -- packet to that address goes to the path, and the next packet from the path has the same one.
  pub rewrite_src-Leads :
      (local : SockAddr) (path : Bytes) (to : Destination) (s : State S)
      → s.self.binding ≡ some local
      → find bytes_eq s.self.revpeermap path ≡ none
      → Ensures (Leads path to) (rewrite_src kernel (unix path) to s)
  unfolding rewrite_src
  rewrite_src-Leads local path to s h e = ground (arith, new_peer-Leads local path to s h)
