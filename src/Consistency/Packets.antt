-- ===== src/Consistency/Packets.antt =====
-- The entry points for packets keep the sockets of the store sound.
use ip2unix.Base.{Bool, Option, if◌then◌else◌, none, not, some, ℕ}
use ip2unix.Base.Integer.{ℤ}
use ip2unix.Base.Dict.{find}
use ip2unix.Effect.{Effect, elim_Ensures, pure}
use ip2unix.Kernel.{Applied, Call, Kernel, call, einval, fail_with, minus_one}
use ip2unix.Rules.{Rule, outgoing}
use ip2unix.Matching.{match_rule}
use ip2unix.SockAddr.{Destination, SockAddr, equals, unix_addr}
use ip2unix.Socket.{State, in_world, on_process, on_world}
use ip2unix.Socket.Connect.{rewrite_dest}
use ip2unix.Socket.Peers.{rewrite_dest_peermap, rewrite_src}
use ip2unix.Preload.{Loader, init_rules}
use ip2unix.Preload.Calls
use ip2unix.Preload.Calls.{
  both_pointers, receive, received_address, recvfrom, recvmsg, rewriting, send, send_by_rule,
  send_call, sendmsg, sendto, to_destination, when_rewriting,
}
use ip2unix.Consistency.{
  Holds, IsSound, Keeps, elim_Keeps, if_Keeps, on_process-Keeps, then_Ensures, then_Keeps,
}
use ip2unix.Consistency.Connect.{rewrite_dest-Keeps}
use ip2unix.Consistency.Peers.{rewrite_src-Keeps}
use ip2unix.Consistency.Store.{Stays, if_Stays, in_world-Stays, on_world-Keeps, when-Stays}
use ip2unix.Consistency.Rules.{init_rules-Leaves}

module _ {S : Type 0} (kernel : Kernel S) (loader : Loader S) where
  pub when_rewriting-Stays :
      {A : Type 0} (fd : ℤ) (method : Effect (State S) A) (real : Call S A)
      → Keeps IsSound method
      → Stays kernel (when_rewriting kernel loader fd method real)
  when_rewriting-Stays fd method real h =
      when-Stays kernel fd (rewriting kernel loader method real) (in_world (call real))
        (λ s.
          if_Keeps IsSound s.self.rewrite_peer_address method (on_process (call real)) h
            (on_process-Keeps IsSound (call real)) s)
        (in_world-Stays kernel (call real))

  receive-Keeps :
      (to : Destination) (real : Call S (ℤ × Applied))
      → Keeps IsSound (receive kernel loader to real)
  unfolding receive
  receive-Keeps to real s i =
      let received = (real s.world.process.os).0 in
      then_Keeps IsSound (rewrite_src kernel (received_address kernel loader received.1) to)
        (λ rewritten.
          if rewritten.0
          then pure (received.0, rewritten.1)
          else on_process (fail_with einval (minus_one, rewritten.1)))
        (rewrite_src-Keeps kernel (received_address kernel loader received.1) to)
        (λ rewritten. if_Keeps IsSound rewritten.0 _ _ (λ t j. j) (λ t j. j)) _ i

  send_by_rule-Keeps :
      (addr : SockAddr) (addrlen : ℕ) (real : Option (SockAddr × ℕ) → Call S ℤ)
      (found : Option (ℕ × Rule))
      → Keeps IsSound (send_by_rule kernel loader addr addrlen real found)
  unfolding send_by_rule
  send_by_rule-Keeps addr addrlen real none = λ s i. i
  send_by_rule-Keeps addr addrlen real (some (rulepos, rule)) =
      elim_Keeps IsSound rule.socket_path (on_process (call (real (some (addr, addrlen))))) _
        (λ s i. i)
        λ path.
          if_Keeps IsSound rule.reject _ _ (λ s i. i)
            (then_Keeps IsSound (rewrite_dest kernel addr path) _
              (rewrite_dest-Keeps kernel addr path)
              λ newdest.
                on_process-Keeps IsSound (call (real (to_destination kernel loader newdest))))

  send-Keeps :
      (addr : SockAddr) (addrlen : ℕ) (real : Option (SockAddr × ℕ) → Call S ℤ)
      → Keeps IsSound (send kernel loader addr addrlen real)
  unfolding send rewrite_dest_peermap
  send-Keeps addr addrlen real s i =
      elim_Ensures (λ _ t. Holds IsSound t) s
        (elim (find equals s.self.peermap addr) [ none ↦ none | some path ↦ unix_addr path ]) _ _
        (λ _.
          then_Ensures IsSound (on_world (init_rules kernel loader)) _ s i
            (on_world-Keeps kernel (init_rules kernel loader) (init_rules-Leaves kernel loader))
            λ rules t.
              send_by_rule-Keeps addr addrlen real
                (match_rule kernel.inet addr t.self.type outgoing rules) t)
        λ dest _. i

  pub recvfrom-Stays :
      (fd : ℤ) (to : Destination) → Stays kernel (Calls.recvfrom kernel loader fd to)
  unfolding Calls.recvfrom
  recvfrom-Stays fd to =
      if_Stays kernel (not to.has_addr) (in_world (call (kernel.recvfrom fd to))) _
        (in_world-Stays kernel (call (kernel.recvfrom fd to)))
        (when_rewriting-Stays fd _ (kernel.recvfrom fd to)
          (receive-Keeps to (kernel.recvfrom fd (both_pointers kernel loader))))

  pub recvmsg-Stays : (fd : ℤ) (named : Bool) → Stays kernel (Calls.recvmsg kernel loader fd named)
  unfolding Calls.recvmsg
  recvmsg-Stays fd named =
      if_Stays kernel (not named) (in_world (call (kernel.recvmsg fd))) _
        (in_world-Stays kernel (call (kernel.recvmsg fd)))
        (when_rewriting-Stays fd _ (kernel.recvmsg fd)
          (receive-Keeps (both_pointers kernel loader) (kernel.recvmsg fd)))

  send_call-Stays :
      (fd : ℤ) (dest : Option (SockAddr × ℕ)) (real : Option (SockAddr × ℕ) → Call S ℤ)
      → Stays kernel (send_call kernel loader fd dest real)
  unfolding send_call
  send_call-Stays fd none real = in_world-Stays kernel (call (real none))
  send_call-Stays fd (some (addr, addrlen)) real =
      when_rewriting-Stays fd _ (real (some (addr, addrlen))) (send-Keeps addr addrlen real)

  pub sendto-Stays :
      (fd : ℤ) (dest : Option (SockAddr × ℕ)) → Stays kernel (Calls.sendto kernel loader fd dest)
  unfolding Calls.sendto
  sendto-Stays fd dest = send_call-Stays fd dest (kernel.sendto fd)

  pub sendmsg-Stays :
      (fd : ℤ) (name : Option (SockAddr × ℕ)) → Stays kernel (Calls.sendmsg kernel loader fd name)
  unfolding Calls.sendmsg
  sendmsg-Stays fd name = send_call-Stays fd name (kernel.sendmsg fd)
