-- ===== src/Tests/Preload.antt =====
-- The entry points of the library.
use mathlib.Core.Option
use ip2unix.Base.{List, [], inl, none, refl, some, true, ℕ, ◌∷◌, ◌≡◌}
use ip2unix.Base.Integer.{int_eq, pos, ℤ}
use ip2unix.Base.Dict.{find}
use ip2unix.Effect.{Ensures, pure, ◌>>◌}
use ip2unix.Rules.{Rule, RuleDir, default_rule, incoming, outgoing, udp}
use ip2unix.SockAddr.{SockAddr, inet}
use ip2unix.Kernel.{call, minus_one}
use ip2unix.Matching.First.{Applies, nobody, takes}
use ip2unix.RuleParser.Validate.Sound.{IsValidRule}
use ip2unix.Socket.{State, World, on_process}
use ip2unix.Preload.{bind_connect, binds, connects, decide}
use ip2unix.Preload.Calls
use ip2unix.Preload.Calls.{close, send, sendto}
use ip2unix.Preload.Decisions.{bind_connect-rejects, decide-passes, send-rejected}
use ip2unix.Socket.Registry.{release}
use ip2unix.Tests.Addresses.{net}
use ip2unix.Tests.Args.{env}
use ip2unix.Tests.Kernels.{kernel, no_file, sock, state_with, world_with}

abbrev refusal : Rule
refusal = record default_rule { reject = true; reject_errno = some (pos 111) }

abbrev refusing : List Rule
refusing = refusal ∷ []

refusal_valid : IsValidRule env refusal
refusal_valid = record { address_ok = tt; ports_ok = tt; action_ok = (refl, refl) }

abbrev target : SockAddr
target = inet 80 1

refusal-Applies : (dir : RuleDir) → Applies net target udp dir refusal
refusal-Applies dir = record {
  direction_met = inl refl;
  type_met = inl refl;
  host_met = tt;
  port_met = tt;
}

bind_connect-rejects_example :
    bind_connect kernel no_file binds (pos 5) target 16 (world_with refusing)
    ≡ (release kernel >> pure minus_one) (record (world_with refusing) {
      process = record ((world_with refusing).process) { errno = pos 111 };
    })
unfolding find int_eq
bind_connect-rejects_example =
    bind_connect-rejects kernel no_file env refusing (world_with refusing) binds (pos 5) target 16 0
      sock refusal (refusal_valid, tt) refl refl refl refl (λ _. refl)
      (takes (refusal-Applies incoming) refl) refl

decide-passes_example :
    Ensures
      (λ (ret : ℤ) (t : State ℕ).
        (ret ≡ pos 0) × (t.self ≡ sock) × (find int_eq t.world.registry (pos 5) ≡ none))
      (decide kernel no_file connects (pos 5) target 16 (state_with []))
decide-passes_example =
    decide-passes kernel no_file env [] tt (state_with []) refl connects (pos 5) target 16 nobody

send-rejected_example :
    send kernel no_file target 16 (kernel.sendto (pos 5)) (state_with refusing)
    ≡ on_process (call (kernel.sendto (pos 5) (some (target, 16)))) (state_with refusing)
unfolding find
send-rejected_example =
    send-rejected kernel no_file env refusing (refusal_valid, tt) (state_with refusing) refl target
      16 (kernel.sendto (pos 5)) refusal refl (takes (refusal-Applies outgoing) refl) refusal_valid
      refl

-- A duplicate is closed: the descriptor it was made from goes, and the duplicate stays registered.
close_duplicate :
    Option.map
      (λ (r : ℤ × World ℕ). r.1.registry)
      (Calls.close kernel no_file (pos 6) (world_with []))
    ≡ some ((pos 6, 0) ∷ [])
unfolding Calls.close
close_duplicate = refl
