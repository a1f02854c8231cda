-- ===== src/Socket/Bind/Outcome.antt =====
-- What `bind` leaves behind, for a call that succeeded and for one that failed.
use mathlib.Core.Path.{subst}
use ip2unix.Base.{Option, arith, false, if_cases, none, not, refl, some, suc, true, zero, ℕ, ◌≡◌}
use ip2unix.Base.Text.{Bytes}
use ip2unix.Base.Integer.{ℤ}
use ip2unix.Effect.{>>=-Ensures, Effect, Ensures, Returns→Ensures, any_Ensures, pure}
use ip2unix.Kernel.{Kernel, is_zero}
use ip2unix.SockAddr.{SockAddr, get_port, inet, inet6, other, set_port, unix}
use ip2unix.DynPorts.{DynPorts, is_reserved}
use ip2unix.DynPorts.Rotate.{IsEphemeral, rotate_port-IsFree}
use ip2unix.Socket.{State}
use ip2unix.Socket.Unix.{acquire_port, make_unix, reserve_port}
use ip2unix.Socket.Unix.Convert.{Converts, make_unix-Converts}
use ip2unix.Socket.Bind.{bind, bind_address, bind_chosen, choose_port, finish_bind, set_binding}

module _ {S : Type 0} (kernel : Kernel S) where
  -- The address that is bound: the one that was asked for, or for the port 0 its host with an
  -- ephemeral port that was not reserved.
  abbrev pub Chosen : DynPorts → SockAddr → SockAddr → Option ℕ → Type 0
  Chosen ports addr a none = a ≡ addr
  Chosen ports addr a (some zero) =
      (n : ℕ) × (set_port addr n ≡ some a) × IsEphemeral n × (is_reserved ports.reserved n ≡ false)
  Chosen ports addr a (some (suc n)) = a ≡ addr

  acquire_port-Free :
      (s : State S)
      → Ensures
          (λ (n : ℕ) (t : State S). IsEphemeral n × (is_reserved s.self.ports.reserved n ≡ false))
          (acquire_port kernel s)
  unfolding acquire_port
  acquire_port-Free s =
      ground (arith, rotate_port-IsFree s.self.ports s.self.ports.current s.self.ports.offset)

  choose_port-Chosen :
      (addr : SockAddr) (s : State S)
      → Ensures
          (λ (c : SockAddr × Option ℕ) (t : State S). Chosen s.self.ports addr c.0 (get_port addr))
          (choose_port kernel addr s)
  unfolding choose_port get_port
  choose_port-Chosen (inet zero a) s =
      >>=-Ensures
        (λ (n : ℕ) (t : State S). IsEphemeral n × (is_reserved s.self.ports.reserved n ≡ false)) _
        (acquire_port kernel) _ s (acquire_port-Free s) λ n t f. (n, refl, f.0, f.1)
  choose_port-Chosen (inet (suc p) a) s = ground arith
  choose_port-Chosen (inet6 zero a f i) s =
      >>=-Ensures
        (λ (n : ℕ) (t : State S). IsEphemeral n × (is_reserved s.self.ports.reserved n ≡ false)) _
        (acquire_port kernel) _ s (acquire_port-Free s) λ n t f. (n, refl, f.0, f.1)
  choose_port-Chosen (inet6 (suc p) a f i) s = ground arith
  choose_port-Chosen (unix path) s = refl
  choose_port-Chosen (other n) s = refl

  -- What a return value of 0 means.
  abbrev pub Bound : DynPorts → SockAddr → ℤ → State S → Type 0
  Bound ports addr ret t =
      is_zero ret ≡ true
      → (a : SockAddr) × (t.self.binding ≡ some a) × Chosen ports addr a (get_port addr)

  set_binding-Sets :
      (a : SockAddr) (port : Option ℕ) (s : State S)
      → Ensures
          (λ (u : Unit {0}) (t : State S). t.self.binding ≡ some a)
          (set_binding kernel a port s)
  unfolding set_binding
  set_binding-Sets a port s =
      >>=-Ensures (λ _ _. Unit {0}) _
        (elim port [ none ↦ pure tt | some n ↦ reserve_port kernel n ]) _ s (any_Ensures _)
        λ u t _. refl

  finish_bind-Bound :
      (ports : DynPorts) (addr : SockAddr) (chosen : SockAddr × Option ℕ) (ret : ℤ) (s : State S)
      → Chosen ports addr chosen.0 (get_port addr)
      → Ensures (Bound ports addr) (finish_bind kernel chosen ret s)
  unfolding finish_bind
  finish_bind-Bound ports addr chosen ret s c =
      if_cases (λ (m : Effect (State S) ℤ). Ensures (Bound ports addr) (m s)) (is_zero ret) _ _
        (λ z.
          >>=-Ensures (λ (u : Unit {0}) (t : State S). t.self.binding ≡ some chosen.0)
            (Bound ports addr) (set_binding kernel chosen.0 chosen.1) (λ _. pure ret) s
            (set_binding-Sets chosen.0 chosen.1 s) λ u t b z'. (chosen.0, b, c))
        (λ z z'. cc)

  bind_address-Bound :
      (addr : SockAddr) (path : Bytes) (s : State S)
      → Ensures (Bound s.self.ports addr) (bind_address kernel addr path s)
  unfolding bind_address
  bind_address-Bound addr path s =
      >>=-Ensures
        (λ (c : SockAddr × Option ℕ) (t : State S). Chosen s.self.ports addr c.0 (get_port addr))
        (Bound s.self.ports addr) (choose_port kernel addr) _ s (choose_port-Chosen addr s)
        λ chosen t c.
          >>=-Ensures (λ _ _. Unit {0}) (Bound s.self.ports addr) (bind_chosen kernel chosen.0 path)
            (finish_bind kernel chosen) t (any_Ensures _)
            λ ret u _. finish_bind-Bound s.self.ports addr chosen ret u c

  -- If `bind` returns 0, the socket has an address as its binding: the one that was asked for, or
  -- for the port 0 its host with an ephemeral port that was not reserved.
  pub bind-Bound :
      (addr : SockAddr) (path : Bytes) (s : State S)
      → Ensures (Bound s.self.ports addr) (bind kernel addr path s)
  unfolding bind
  bind-Bound addr path s =
      >>=-Ensures (Converts kernel s) (Bound s.self.ports addr) (make_unix kernel none) _ s
        (Returns→Ensures (Converts kernel s) (make_unix kernel none s)
          (make_unix-Converts kernel none s))
        λ converted t c.
          if_cases (λ (m : Effect (State S) ℤ). Ensures (Bound s.self.ports addr) (m t))
            (not converted) _ _ (λ _ z. cc)
            (λ _.
              subst (λ ports. Ensures (Bound ports addr) (bind_address kernel addr path t))
                c.same_ports (bind_address-Bound addr path t))
