-- ===== src/Preload.antt =====
-- src/preload.cc: the functions that the library puts in front of libc's. `bind_connect` and what it
-- decides by the rules is here, the other entry points are in `Calls`.
pub mod Calls
pub mod Decisions
use ip2unix.Base.{Bool, List, Option, [], false, if◌then◌else◌, none, some, true, ℕ, ◌||◌, ◌∷◌}
use ip2unix.Base.Text.{Bytes, codes}
use ip2unix.Base.Integer.{ℤ}
use ip2unix.Effect.{Effect, fault, gets, modify, pure, value_of, ◌>>=◌, ◌>>◌}
use ip2unix.Rules.{Rule, RuleDir, incoming, outgoing}
use ip2unix.Kernel.{Call, Kernel, Process, call, eacces, fail_with, minus_one}
use ip2unix.SockAddr.{SockAddr, inet, inet6}
use ip2unix.Matching.{match_rule}
use ip2unix.RuleParser.Result.{Environment}
use ip2unix.RuleParser.Yaml.{Answer, Loaded, Yaml, parse_rules, yields}
use ip2unix.Serial.Record.{deserialise_rules}
use ip2unix.Systemd.Init
use ip2unix.Systemd.Init.{init, parsed_or_abort}
use ip2unix.Systemd.{acquire_fdinfo_for_rulepos}
use ip2unix.Socket.{Socket, State, World, get_self, in_world, on_process, on_self, on_world}
use ip2unix.Socket.Options.{blackhole}
use ip2unix.Socket.Unix.{activate}
use ip2unix.Socket.Bind
use ip2unix.Socket.Connect
use ip2unix.Socket.Connect.{connect, connect_peermap}
use ip2unix.Socket.Close.{unregister}
use ip2unix.Socket.Registry.{when}

-- `bind_connect` is a template over the method, the real call and the direction.
pub data Request : Type 0 where
  binds connects : Request

abbrev pub direction_of : Request → RuleDir
direction_of binds = incoming
direction_of connects = outgoing

abbrev pub is_inet : SockAddr → Bool
is_inet (inet port addr) = true
is_inet (inet6 port addr flow scope) = true
is_inet _ = false

unfoldable pub activates : List Rule → Bool
activates [] = false
activates (rule ∷ rules) = rule.socket_activation || activates rules

-- What the deprecated IP2UNIX_RULE_FILE is read with.
pub record Loader (S : Type 0) : Type 1 where
  pub yaml : Yaml
  pub env : Environment
  pub load_file : Bytes → S → Loaded (yaml.Node)
  pub load : Bytes → Loaded (yaml.Node)

abbrev pub answered : {W E A : Type 0} → Answer E A → Effect W A
answered (yields a) w = some (a, w)
answered _ w = none

module _ {S : Type 0} (kernel : Kernel S) (loader : Loader S) where
  -- The rules out of the environment; every error ends the program.
  unfoldable pub load_rules : Effect (Process S) (List Rule)
  unfolding deserialise_rules parse_rules
  load_rules = do
    rule_source ← gets λ (p : Process S). kernel.getenv (codes "__IP2UNIX_RULES") p.os
    rule_file ← gets λ (p : Process S). kernel.getenv (codes "IP2UNIX_RULE_FILE") p.os
    elim rule_source [
      | some source ↦ parsed_or_abort (deserialise_rules source)
      | none ↦ elim rule_file [
        | none ↦ fault
        | some file ↦ do
          os ← gets λ (p : Process S). p.os
          answered (
              parse_rules loader.yaml loader.env (λ name. loader.load_file name os) loader.load file
                true)
      ]
    ]

  -- The rules, once they are read, and before.
  unfoldable pub first_rules : Effect (World S) (List Rule)
  unfolding load_rules activates Init.init
  first_rules = do
    rules ← in_world load_rules
    in_world (if activates rules then Init.init kernel rules else pure tt)
    modify λ (w : World S). record w { g_rules = some rules }
    pure rules

  -- `init_rules`, and the rules.
  unfoldable pub init_rules : Effect (World S) (List Rule)
  unfolding first_rules
  init_rules = do
    loaded ← gets λ (w : World S). w.g_rules
    elim loaded [ some rules ↦ pure rules | none ↦ first_rules ]

  abbrev pub sockfun : Request → SockAddr → Bytes → Effect (State S) ℤ
  sockfun binds = Bind.bind kernel
  sockfun connects = Connect.connect kernel

  abbrev pub realfun : Request → ℤ → SockAddr → ℕ → Call S ℤ
  realfun binds = kernel.bind
  realfun connects = kernel.connect

  -- `sock->blackhole()`, and the method with an empty path.
  unfoldable pub blackholed : Request → SockAddr → Effect (State S) ℤ
  unfolding Bind.bind Connect.connect
  blackholed request addr = do on_self blackhole; sockfun request addr []

  -- What a rule says.
  unfoldable pub apply_rule : Request → SockAddr → ℕ → Rule → Effect (State S) ℤ
  unfolding blackholed activate acquire_fdinfo_for_rulepos
  apply_rule request addr rulepos rule =
      if rule.reject
      then on_process (fail_with (elim rule.reject_errno [ none ↦ eacces | some e ↦ e ]) minus_one)
      else if rule.blackhole
      then blackholed request addr
      else if rule.socket_activation
      then (do
        fdinfo ← on_process (acquire_fdinfo_for_rulepos kernel rulepos)
        elim fdinfo [
          | none ↦ blackholed request addr
          | some (filedes, is_inet) ↦ activate kernel addr filedes is_inet
        ])
      else do path ← value_of rule.socket_path; sockfun request addr path

  -- `sock->unregister()`, and the real call.
  unfoldable pub pass_through : Request → ℤ → SockAddr → ℕ → Effect (State S) ℤ
  unfolding unregister
  pass_through request fd addr addrlen = do
    unregister kernel
    on_process (call (realfun request fd addr addrlen))

  -- From the search for a rule on.
  unfoldable pub decide : Request → ℤ → SockAddr → ℕ → Effect (State S) ℤ
  unfolding init_rules match_rule pass_through apply_rule
  decide request fd addr addrlen = do
    rules ← on_world init_rules
    sock ← get_self
    elim (match_rule kernel.inet addr sock.type (direction_of request) rules) [
      | none ↦ pass_through request fd addr addrlen
      | some (rulepos, rule) ↦ apply_rule request addr rulepos rule
    ]

  -- A datagram socket may connect to a peer that it has received something from.
  unfoldable pub known_peer : Request → SockAddr → Effect (State S) (Option ℤ)
  unfolding connect_peermap
  known_peer binds addr = pure none
  known_peer connects addr = connect_peermap kernel addr

  unfoldable pub bind_connect : Request → ℤ → SockAddr → ℕ → Effect (World S) ℤ
  unfolding known_peer decide when
  bind_connect request fd addr addrlen =
      let real : Effect (World S) ℤ = in_world (call (realfun request fd addr addrlen)) in
      if is_inet addr
      then when kernel fd
          (do
            pmap_ret ← known_peer request addr
            elim pmap_ret [ none ↦ decide request fd addr addrlen | some done ↦ pure done ])
          real
      else real
