-- ===== src/Preload/Decisions.antt =====
-- What the rules do to `bind`, `connect`, `sendto` and `sendmsg`.
use ip2unix.Base.{
  All, List, Option, [], ap, arith, none, refl, some, suc, sym, true, zero, ℕ, ◌∙◌, ◌∷◌, ◌≡◌,
}
use ip2unix.Base.Integer.{int_eq, int_eq_iff, ℤ}
use ip2unix.Base.Dict.{find, find-erase}
use ip2unix.Effect.{Ensures, pure, ◌>>◌}
use ip2unix.Rules.{Rule, RuleDir, outgoing}
use ip2unix.Kernel.{Call, Kernel, call, eacces, fail_with, minus_one}
use ip2unix.SockAddr.{SockAddr, equals}
use ip2unix.Matching.{match_rule}
use ip2unix.Matching.First.{Decides, match_rule_iff}
use ip2unix.RuleParser.Result.{Environment}
use ip2unix.RuleParser.Validate.Sound.{IsValidRule}
use ip2unix.Socket.{Socket, State, World, on_process}
use ip2unix.Preload.{
  Loader, Request, bind_connect, binds, connects, decide, direction_of, is_inet, known_peer,
  realfun,
}
use ip2unix.Consistency.Alive.{at_pointer-place}
use ip2unix.Socket.Registry.{release, when}
use ip2unix.Socket.Registry.Lifetime.{place}
use ip2unix.Socket.Close.{put_socket, with_this}
use ip2unix.Socket.Connect.{connect_peermap}
use ip2unix.Preload.Calls.{send, send_by_rule}

module _ {S : Type 0} (kernel : Kernel S) (loader : Loader S) (env : Environment)
    (rules : List Rule) (valid : All (IsValidRule env) rules) (s : State S)
    (loaded : s.world.g_rules ≡ some rules) where
  abbrev Decided : SockAddr → RuleDir → Option (ℕ × Rule) → Type 0
  Decided addr dir o = Decides kernel.inet addr s.self.type dir rules o

  matched :
      (addr : SockAddr) (dir : RuleDir) (o : Option (ℕ × Rule))
      → Decided addr dir o
      → match_rule kernel.inet addr s.self.type dir rules ≡ o
  matched addr dir o d = (match_rule_iff kernel.inet addr s.self.type dir env rules o valid).1 d

  decide-rejects :
      (request : Request) (fd : ℤ) (addr : SockAddr) (addrlen : ℕ) (rule : Rule)
      → Decides kernel.inet addr s.self.type (direction_of request) rules (some (0, rule))
      → rule.reject ≡ true
      → decide kernel loader request fd addr addrlen s
        ≡ on_process (fail_with (elim rule.reject_errno [ none ↦ eacces | some e ↦ e ]) minus_one) s
  unfolding decide
  decide-rejects request fd addr addrlen rule d r =
      ground (arith, matched addr (direction_of request) (some (0, rule)) d)

  -- Where no rule applies, or the first one that does says to ignore the socket, the socket's
  -- descriptor is no longer one of ours, and the real call is made with the program's own address.
  pub decide-passes :
      (request : Request) (fd : ℤ) (addr : SockAddr) (addrlen : ℕ)
      → Decides kernel.inet addr s.self.type (direction_of request) rules none
      → Ensures
          (λ (ret : ℤ) (t : State S).
            (ret ≡ (realfun kernel loader request fd addr addrlen s.world.process.os).0)
            × (t.self ≡ s.self)
            × (find int_eq t.world.registry s.self.fd ≡ none))
          (decide kernel loader request fd addr addrlen s)
  unfolding decide
  decide-passes request fd addr addrlen d = ground (
    arith,
    matched addr (direction_of request) none d,
    find-erase int_eq int_eq_iff s.world.registry s.self.fd s.self.fd,
    int_eq_iff s.self.fd s.self.fd,
  )

  -- Where the first rule that applies rejects, a packet is sent to its address all the same.
  pub send-rejected :
      (addr : SockAddr) (addrlen : ℕ) (real : Option (SockAddr × ℕ) → Call S ℤ) (rule : Rule)
      → find equals s.self.peermap addr ≡ none
      → Decides kernel.inet addr s.self.type outgoing rules (some (0, rule))
      → IsValidRule env rule
      → rule.reject ≡ true
      → send kernel loader addr addrlen real s ≡ on_process (call (real (some (addr, addrlen)))) s
  unfolding send send_by_rule
  send-rejected addr addrlen real rule n d v r =
      ground (arith, matched addr outgoing (some (0, rule)) d)

module _ {S : Type 0} (kernel : Kernel S) (loader : Loader S) where
  put_socket-same :
      (sockets : List (Option Socket)) (p : ℕ) (sock : Socket)
      → place sockets p ≡ some sock
      → put_socket kernel sockets p (some sock) ≡ sockets
  put_socket-same [] p sock e = refl
  put_socket-same (cell ∷ sockets) zero sock e = ap (λ x. x ∷ sockets) (sym e)
  put_socket-same (cell ∷ sockets) (suc p) sock e =
      ap (λ xs. cell ∷ xs) (put_socket-same sockets p sock e)

  known_peer-none :
      (request : Request) (addr : SockAddr) (s : State S)
      → (request ≡ connects → find equals s.self.peermap addr ≡ none)
      → known_peer kernel loader request addr s ≡ some (none, s)
  unfolding known_peer connect_peermap
  known_peer-none binds addr s e = refl
  known_peer-none connects addr s e = ground (arith, e refl)

  -- `bind` or `connect` of one of our sockets to an IP address, for which the first rule that applies
  -- rejects: the call returns -1 with the error number of the rule, or EACCES, and no call of the
  -- system is made but those that destroy sockets no descriptor stands for. A connect to
  -- the address of a known peer is excepted.
  pub bind_connect-rejects :
      (env : Environment) (rules : List Rule) (w : World S) (request : Request) (fd : ℤ)
      (addr : SockAddr) (addrlen p : ℕ) (sock : Socket) (rule : Rule)
      → All (IsValidRule env) rules
      → w.g_rules ≡ some rules
      → is_inet addr ≡ true
      → find int_eq w.registry fd ≡ some p
      → place w.sockets p ≡ some sock
      → (request ≡ connects → find equals sock.peermap addr ≡ none)
      → Decides kernel.inet addr sock.type (direction_of request) rules (some (0, rule))
      → rule.reject ≡ true
      → bind_connect kernel loader request fd addr addrlen w
        ≡ (release kernel >> pure minus_one) (record w {
          process = record (w.process) {
            errno = elim rule.reject_errno [ none ↦ eacces | some e ↦ e ];
          };
        })
  unfolding bind_connect when with_this
  bind_connect-rejects env rules w request fd addr addrlen p sock rule valid g i f a k d r =
      let s : State S = record { this = p; self = sock; world = w } in
      let pointed = at_pointer-place kernel w p ∙ a in
      let peer = known_peer-none request addr s k in
      let decided =
        decide-rejects kernel loader env rules valid s g request fd addr addrlen rule d r in
      ground (arith, i, f, pointed, peer, decided, put_socket-same w.sockets p sock a)
