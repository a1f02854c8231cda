-- ===== src/Consistency/Rules.antt =====
-- What the rules make of `bind`, `connect` and packets keeps sockets sound.
use ip2unix.Base.{[], if◌then◌else◌, refl, ℕ, ◌≡◌}
use ip2unix.Base.Text.{Bytes}
use ip2unix.Base.Integer.{ℤ}
use ip2unix.Effect.{elim_Ensures, pure, value_of}
use ip2unix.Kernel.{Kernel}
use ip2unix.Rules.{Rule}
use ip2unix.Matching.{match_rule}
use ip2unix.SockAddr.{SockAddr}
use ip2unix.Systemd.Init.{init}
use ip2unix.Systemd.{acquire_fdinfo_for_rulepos}
use ip2unix.Socket.{World, in_world, on_process, on_self, on_world}
use ip2unix.Socket.Options.{blackhole}
use ip2unix.Socket.Close.{unregister}
use ip2unix.Preload.{
  Loader, Request, activates, apply_rule, binds, blackholed, connects, decide, direction_of,
  first_rules, init_rules, load_rules, pass_through, sockfun,
}
use ip2unix.Consistency.{
  IsSound, Keeps, elim_Keeps, if_Keeps, on_process-Keeps, on_self-Keeps, then_Ensures, then_Keeps,
  value_of-Keeps,
}
use ip2unix.Consistency.Bind.{activate-Keeps, bind-Keeps}
use ip2unix.Consistency.Connect.{connect-Keeps}
use ip2unix.Consistency.Alive.{erase-IsPlaced}
use ip2unix.Consistency.Store.{
  Leaves, Leaves-Stays, Stays, in_world-Leaves, on_world-Keeps, then_Leaves,
}

module _ {S : Type 0} (kernel : Kernel S) (loader : Loader S) where
  first_rules-Leaves : Leaves kernel (first_rules kernel loader)
  unfolding first_rules
  first_rules-Leaves =
      then_Leaves kernel (in_world (load_rules kernel loader)) _
        (in_world-Leaves kernel (load_rules kernel loader))
        λ rules.
          then_Leaves kernel (in_world (if activates rules then init kernel rules else pure tt)) _
            (in_world-Leaves kernel (if activates rules then init kernel rules else pure tt))
            λ u w. (refl, refl)

  pub init_rules-Leaves : Leaves kernel (init_rules kernel loader)
  unfolding init_rules
  init_rules-Leaves w =
      elim_Ensures (λ _ (v : World S). (v.sockets ≡ w.sockets) × (v.registry ≡ w.registry)) w
        w.g_rules (first_rules kernel loader) _ (λ _. first_rules-Leaves w) λ rules _. (refl, refl)

  pub init_rules-Stays : Stays kernel (init_rules kernel loader)
  init_rules-Stays = Leaves-Stays kernel (init_rules kernel loader) init_rules-Leaves

  sockfun-Keeps :
      (request : Request) (addr : SockAddr) (path : Bytes)
      → Keeps IsSound (sockfun kernel loader request addr path)
  sockfun-Keeps binds addr path = bind-Keeps kernel addr path
  sockfun-Keeps connects addr path = connect-Keeps kernel addr path

  blackholed-Keeps :
      (request : Request) (addr : SockAddr) → Keeps IsSound (blackholed kernel loader request addr)
  unfolding blackholed
  blackholed-Keeps request addr =
      then_Keeps IsSound (on_self blackhole) (λ _. sockfun kernel loader request addr [])
        (on_self-Keeps IsSound blackhole λ sock i. i) λ _. sockfun-Keeps request addr []

  apply_rule-Keeps :
      (request : Request) (addr : SockAddr) (rulepos : ℕ) (rule : Rule)
      → Keeps IsSound (apply_rule kernel loader request addr rulepos rule)
  unfolding apply_rule
  apply_rule-Keeps request addr rulepos rule =
      if_Keeps IsSound rule.reject _ _ (λ s i. i)
        (if_Keeps IsSound rule.blackhole _ _ (blackholed-Keeps request addr) (
          if_Keeps IsSound rule.socket_activation _ _
            (then_Keeps IsSound (on_process (acquire_fdinfo_for_rulepos kernel rulepos)) _
              (on_process-Keeps IsSound (acquire_fdinfo_for_rulepos kernel rulepos))
              λ fdinfo.
                elim_Keeps IsSound fdinfo (blackholed kernel loader request addr) _
                  (blackholed-Keeps request addr) λ fd. activate-Keeps kernel addr fd.0 fd.1)
            (then_Keeps IsSound (value_of rule.socket_path) (sockfun kernel loader request addr)
              (value_of-Keeps IsSound rule.socket_path) (sockfun-Keeps request addr))))

  pass_through-Keeps :
      (request : Request) (fd : ℤ) (addr : SockAddr) (addrlen : ℕ)
      → Keeps IsSound (pass_through kernel loader request fd addr addrlen)
  unfolding pass_through unregister
  pass_through-Keeps request fd addr addrlen s (i, c) =
      (i, erase-IsPlaced s.world.sockets s.world.registry s.self.fd s.this c)

  pub decide-Keeps :
      (request : Request) (fd : ℤ) (addr : SockAddr) (addrlen : ℕ)
      → Keeps IsSound (decide kernel loader request fd addr addrlen)
  unfolding decide
  decide-Keeps request fd addr addrlen s i =
      then_Ensures IsSound (on_world (init_rules kernel loader)) _ s i
        (on_world-Keeps kernel (init_rules kernel loader) init_rules-Leaves)
        λ rules t.
          elim_Keeps IsSound (match_rule kernel.inet addr t.self.type (direction_of request) rules)
            (pass_through kernel loader request fd addr addrlen) _
            (pass_through-Keeps request fd addr addrlen)
            (λ found. apply_rule-Keeps request addr found.0 found.1) t
