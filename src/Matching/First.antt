-- ===== src/Matching/First.antt =====
-- `match_rule` returns the first rule that applies, unless that rule says to ignore the socket.
use ip2unix.Base.{
  All, Bool, Bool-cases, List, Option, [], arith, false, if◌then◌else◌, inl, inr, is_some, none,
  refl, some, true, ℕ, ◌||◌, ◌↔◌, ◌∙◌, ◌∷◌, ◌≡◌, ◌≤◌, ◌⊎◌,
}
use ip2unix.Base.Text.{Bytes, bytes_eq_iff}
use ip2unix.Rules.{Rule, RuleDir, SocketType, incoming, invalid, outgoing, tcp, udp}
use ip2unix.SockAddr.{Inet, SockAddr, get_host, get_port}
use ip2unix.RuleParser.Result.{Environment}
use ip2unix.RuleParser.Validate.Sound.{ActionOk, IsValidRule}
use ip2unix.Matching.{
  dir_eq, excludes, excludes_host, excludes_port, follow, ignored, judge, match_from, match_rule,
  skip, taken, type_eq,
}

-- A criterion that is not set, or is met.
abbrev pub Unset {ℓ} : {A : Type ℓ} → Option A → A → Type ℓ
Unset o a = (o ≡ none) ⊎ (o ≡ some a)

-- The port of the address is the rule's, or lies in the rule's range.
abbrev pub PortIn : Option ℕ → Option ℕ → Option ℕ → Type 0
PortIn none port_end addrport = Unit
PortIn (some port) none addrport = addrport ≡ some port
PortIn (some port) (some port_end) none = ⊥
PortIn (some port) (some port_end) (some addrport) = (port ≤ addrport) × (addrport ≤ port_end)

abbrev pub HostIs : Option Bytes → Option Bytes → Type 0
HostIs none host = Unit
HostIs (some address) host = host ≡ some address

module _ (net : Inet) (addr : SockAddr) (type : SocketType) (dir : RuleDir) where
  -- All criteria of the rule are met.
  pub record Applies (rule : Rule) : Type 0 where
    pub direction_met : Unset rule.direction dir
    pub type_met : Unset rule.type type
    pub host_met : HostIs rule.address (get_host net addr)
    pub port_met : PortIn rule.port rule.port_end (get_port addr)

direction_iff : (o : Option RuleDir) (d : RuleDir) → (excludes dir_eq o d ≡ false) ↔ Unset o d
unfolding dir_eq
direction_iff none d = ((λ _. inl refl), λ _. refl)
direction_iff (some incoming) incoming = ((λ _. inr refl), λ _. refl)
direction_iff (some incoming) outgoing = ((λ h. cc), λ h. ground arith)
direction_iff (some outgoing) incoming = ((λ h. cc), λ h. ground arith)
direction_iff (some outgoing) outgoing = ((λ _. inr refl), λ _. refl)

type_iff : (o : Option SocketType) (t : SocketType) → (excludes type_eq o t ≡ false) ↔ Unset o t
unfolding type_eq
type_iff none t = ((λ _. inl refl), λ _. refl)
type_iff (some tcp) tcp = ((λ _. inr refl), λ _. refl)
type_iff (some udp) udp = ((λ _. inr refl), λ _. refl)
type_iff (some invalid) invalid = ((λ _. inr refl), λ _. refl)
type_iff (some _) t = ((λ h. cc), λ h. ground arith)

host_iff : (a h : Option Bytes) → (excludes_host a h ≡ false) ↔ HostIs a h
host_iff none h = ((λ _. tt), λ _. refl)
host_iff (some a) none = ((λ e. cc), λ e. ground arith)
host_iff (some a) (some b) =
    ((λ e. ground (arith, bytes_eq_iff b a)), λ e. ground (arith, bytes_eq_iff b a))

port_iff : (p e q : Option ℕ) → (excludes_port p e q ≡ false) ↔ PortIn p e q
unfolding excludes_port
port_iff none e q = ((λ _. tt), λ _. refl)
port_iff (some p) none none = ((λ h. cc), λ h. ground arith)
port_iff (some p) none (some q) = ((λ h. ground arith), λ h. ground arith)
port_iff (some p) (some e) none = ((λ h. cc), λ h. absurd h)
port_iff (some p) (some e) (some q) = ((λ h. ground arith), λ h. ground arith)

-- A valid rule has something to do.
has_action :
    (env : Environment) (rule : Rule)
    → IsValidRule env rule
    → rule.ignore ≡ false
    → (rule.socket_activation || is_some rule.socket_path || rule.reject || rule.blackhole) ≡ true
has_action env rule v i =
    act rule.direction rule.socket_path rule.reject rule.blackhole v.action_ok i
  where
    act :
        (d : Option RuleDir) (path : Option Bytes) (reject blackhole : Bool)
        → ActionOk d path rule.socket_activation reject blackhole rule.ignore
        → rule.ignore ≡ false
        → (rule.socket_activation || is_some path || reject || blackhole) ≡ true
    act d (some path) reject blackhole a i = ground arith
    act d none true blackhole a i = ground arith
    act d none false true a i = ground arith
    act d none false false a i = ground arith

module _ (net : Inet) (addr : SockAddr) (type : SocketType) (dir : RuleDir) where
  abbrev excluded : Rule → Bool
  excluded rule =
      excludes dir_eq rule.direction dir
      || excludes type_eq rule.type type
      || excludes_host rule.address (get_host net addr)
      || excludes_port rule.port rule.port_end (get_port addr)

  excluded→not-Applies : (rule : Rule) → excluded rule ≡ true → ¬ Applies net addr type dir rule
  excluded→not-Applies rule h a =
      let d = (direction_iff rule.direction dir).1 a.direction_met in
      let t = (type_iff rule.type type).1 a.type_met in
      let n = (host_iff rule.address (get_host net addr)).1 a.host_met in
      let p = (port_iff rule.port rule.port_end (get_port addr)).1 a.port_met in ground arith

  not_excluded→Applies : (rule : Rule) → excluded rule ≡ false → Applies net addr type dir rule
  not_excluded→Applies rule h = record {
    direction_met = (direction_iff rule.direction dir).0 (ground arith);
    type_met = (type_iff rule.type type).0 (ground arith);
    host_met = (host_iff rule.address (get_host net addr)).0 (ground arith);
    port_met = (port_iff rule.port rule.port_end (get_port addr)).0 (ground arith);
  }

  judge_lem :
      (rule : Rule)
      → judge net addr type dir rule ≡ (
          if excluded rule
          then skip
          else if rule.ignore
          then ignored
          else if rule.socket_activation
              || is_some rule.socket_path
              || rule.reject
              || rule.blackhole
          then taken
          else skip)
  unfolding judge
  judge_lem rule = ground arith

  -- The outcome of matching, described without the loop.
  pub data Decides : List Rule → Option (ℕ × Rule) → Type 0 where
    nobody : Decides [] none
    passes :
        {rule : Rule} {rules : List Rule} {o : Option (ℕ × Rule)}
        → ¬ Applies net addr type dir rule
        → Decides rules o
        → Decides (rule ∷ rules) o
    ignores :
        {rule : Rule} {rules : List Rule}
        → Applies net addr type dir rule
        → rule.ignore ≡ true
        → Decides (rule ∷ rules) none
    takes :
        {rule : Rule} {rules : List Rule}
        → Applies net addr type dir rule
        → rule.ignore ≡ false
        → Decides (rule ∷ rules) (some (0, rule))

  judge-skip : (rule : Rule) → excluded rule ≡ true → judge net addr type dir rule ≡ skip
  judge-skip rule out = rw (judge_lem rule, out)

  judge-ignored :
      (rule : Rule)
      → excluded rule ≡ false
      → rule.ignore ≡ true
      → judge net addr type dir rule ≡ ignored
  judge-ignored rule fits i = judge_lem rule ∙ rw (fits, i)

  judge-taken :
      (env : Environment) (rule : Rule)
      → IsValidRule env rule
      → excluded rule ≡ false
      → rule.ignore ≡ false
      → judge net addr type dir rule ≡ taken
  judge-taken env rule v fits i = judge_lem rule ∙ rw (fits, has_action env rule v i, i)

  match-Decides :
      (env : Environment) (rules : List Rule)
      → All (IsValidRule env) rules
      → Decides rules (match_from net addr type dir 0 rules)
  unfolding match_from
  match-Decides env [] v = nobody
  match-Decides env (rule ∷ rules) v = elim (Bool-cases (excluded rule)) [
    | inl out ↦
        rw (follow, judge-skip rule out)
          (passes (excluded→not-Applies rule out) (match-Decides env rules v.1))
    | inr fits ↦ elim (Bool-cases rule.ignore) [
      | inl i ↦ rw (follow, judge-ignored rule fits i) (ignores (not_excluded→Applies rule fits) i)
      | inr i ↦
          rw (follow, judge-taken env rule v.0 fits i) (takes (not_excluded→Applies rule fits) i)
    ]
  ]

  Decides-unique :
      {rules : List Rule} {o : Option (ℕ × Rule)}
      → Decides rules o
      → (p : Option (ℕ × Rule)) → Decides rules p
      → o ≡ p
  Decides-unique nobody p nobody = refl
  Decides-unique (passes n d) p (passes n' d') = Decides-unique d p d'
  Decides-unique (passes n d) p (ignores a i) = absurd (n a)
  Decides-unique (passes n d) p (takes a i) = absurd (n a)
  Decides-unique (ignores a i) p (passes n d) = absurd (n a)
  Decides-unique (ignores a i) p (ignores a' i') = refl
  Decides-unique (ignores a i) p (takes a' i') = cc
  Decides-unique (takes a i) p (passes n d) = absurd (n a)
  Decides-unique (takes a i) p (ignores a' i') = cc
  Decides-unique (takes a i) p (takes a' i') = refl

  -- Over valid rules, `match_rule` returns the first rule that applies, unless that rule says to
  -- ignore the socket; the position beside it is 0 whichever rule it is.
  pub match_rule_iff :
      (env : Environment) (rules : List Rule) (o : Option (ℕ × Rule))
      → All (IsValidRule env) rules
      → (match_rule net addr type dir rules ≡ o) ↔ Decides rules o
  unfolding match_rule
  match_rule_iff env rules o v = (
    λ e. rw e at (match-Decides env rules v),
    λ d. Decides-unique (match-Decides env rules v) o d,
  )
