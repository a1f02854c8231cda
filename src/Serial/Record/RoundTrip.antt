-- ===== src/Serial/Record/RoundTrip.antt =====
-- The rules that the wrapper passes in `__IP2UNIX_RULES` are the rules that the library matches.
use ip2unix.Base.{
  All, Bool, List, Option, [], append_assoc, arith, none, refl, some, true, ℕ, ◌++◌, ◌<◌, ◌^◌, ◌∷◌,
  ◌≡◌,
}
use ip2unix.Base.Text.{Bytes}
use ip2unix.Base.Integer.{InInt32, negsuc, pos, ℤ}
use ip2unix.Base.Decimal.{decimal, decimal_starts, starts_with_digit}
use ip2unix.Rules.{Rule, RuleDir, SocketType, incoming, invalid, outgoing, tcp, udp}
use ip2unix.Serial.Stream.{Consumes, RoundTrips, ok}
use ip2unix.Serial.Scalar.{
  deserialise_bool, deserialise_int, deserialise_rule_dir, deserialise_socket_type,
  deserialise_string, deserialise_unsigned, serialise_bool, serialise_int, serialise_rule_dir,
  serialise_socket_type, serialise_string, serialise_unsigned,
}
use ip2unix.Serial.Scalar.RoundTrip.{
  Any, bool-RoundTrips, int-RoundTrips, rule_dir-RoundTrips, socket_type-RoundTrips,
  string-RoundTrips, unsigned-RoundTrips,
}
use ip2unix.Serial.Scalar.Progress.{
  bool-Consumes, int-Consumes, rule_dir-Consumes, socket_type-Consumes, string-Consumes,
  unsigned-Consumes,
}
use ip2unix.Serial.Container.{deserialise_optional, serialise_optional}
use ip2unix.Serial.Container.RoundTrip.{
  OptionAll, optional-RoundTrips, sequence-RoundTrips, starts_plain,
}
use ip2unix.Serial.Container.Progress.{bind-Consumes, map-Consumes, optional-Consumes}
use ip2unix.Serial.Record.{deserialise_rule, deserialise_rules, serialise_rule, serialise_rules}

-- The fields hold values of their C++ types.
pub record InTypes (rule : Rule) : Type 0 where
  pub port_range : OptionAll (λ n. n < 2 ^ 16) rule.port
  pub port_end_range : OptionAll (λ n. n < 2 ^ 16) rule.port_end
  pub errno_range : OptionAll InInt32 rule.reject_errno

-- No element's text begins with the mark for `nullopt`.
string_plain : (str rest : Bytes) → starts_plain (serialise_string str ++ rest) ≡ true
unfolding serialise_string
string_plain [] rest = refl
string_plain (c ∷ str) rest = ground arith

digits_plain : (s : Bytes) → starts_with_digit s ≡ true → starts_plain s ≡ true
digits_plain [] h = cc
digits_plain (c ∷ s) h = ground arith

unsigned_plain : (n : ℕ) (rest : Bytes) → starts_plain (serialise_unsigned n ++ rest) ≡ true
unfolding serialise_unsigned
unsigned_plain n rest =
    rw append_assoc (digits_plain (decimal n ++ (b'&' ∷ rest)) (decimal_starts n (b'&' ∷ rest)))

int_plain : (n : ℤ) (rest : Bytes) → starts_plain (serialise_int n ++ rest) ≡ true
unfolding serialise_int
int_plain (pos n) rest =
    rw append_assoc (digits_plain (decimal n ++ (b'&' ∷ rest)) (decimal_starts n (b'&' ∷ rest)))
int_plain (negsuc n) rest = refl

rule_dir_plain : (d : RuleDir) (rest : Bytes) → starts_plain (serialise_rule_dir d ++ rest) ≡ true
unfolding serialise_rule_dir
rule_dir_plain incoming rest = refl
rule_dir_plain outgoing rest = refl

socket_type_plain :
    (t : SocketType) (rest : Bytes) → starts_plain (serialise_socket_type t ++ rest) ≡ true
unfolding serialise_socket_type
socket_type_plain tcp rest = refl
socket_type_plain udp rest = refl
socket_type_plain invalid rest = refl

OptionAll-Any {ℓ} : {A : Type ℓ} (o : Option A) → OptionAll Any o
OptionAll-Any none = tt
OptionAll-Any (some a) = tt

string_field :
    (o : Option Bytes) (rest : Bytes)
    → deserialise_optional deserialise_string (serialise_optional serialise_string o ++ rest)
      ≡ ok o rest
string_field o rest =
    optional-RoundTrips serialise_string deserialise_string string-RoundTrips string_plain o rest
      (OptionAll-Any o)

rule_dir_field :
    (o : Option RuleDir) (rest : Bytes)
    → deserialise_optional deserialise_rule_dir (serialise_optional serialise_rule_dir o ++ rest)
      ≡ ok o rest
rule_dir_field o rest =
    optional-RoundTrips serialise_rule_dir deserialise_rule_dir rule_dir-RoundTrips rule_dir_plain o
      rest (OptionAll-Any o)

socket_type_field :
    (o : Option SocketType) (rest : Bytes)
    → deserialise_optional deserialise_socket_type
        (serialise_optional serialise_socket_type o ++ rest)
      ≡ ok o rest
socket_type_field o rest =
    optional-RoundTrips serialise_socket_type deserialise_socket_type socket_type-RoundTrips
      socket_type_plain o rest (OptionAll-Any o)

port_field :
    RoundTrips
      (OptionAll (λ n. n < 2 ^ 16))
      (serialise_optional serialise_unsigned)
      (deserialise_optional (deserialise_unsigned 16))
port_field =
    optional-RoundTrips serialise_unsigned (deserialise_unsigned 16) (unsigned-RoundTrips 16)
      unsigned_plain

errno_field :
    RoundTrips
      (OptionAll InInt32)
      (serialise_optional serialise_int)
      (deserialise_optional deserialise_int)
errno_field = optional-RoundTrips serialise_int deserialise_int int-RoundTrips int_plain

bool_field : (b : Bool) (rest : Bytes) → deserialise_bool (serialise_bool b ++ rest) ≡ ok b rest
bool_field b rest = bool-RoundTrips b rest tt

-- A rule whose fields hold values of their types is read back from its text, whatever follows it.
pub rule-RoundTrips : RoundTrips InTypes serialise_rule deserialise_rule
unfolding serialise_rule deserialise_rule
rule-RoundTrips rule rest t = simp (
  append_assoc,
  rule_dir_field,
  socket_type_field,
  string_field,
  bool_field,
  port_field rule.port _ t.port_range,
  port_field rule.port_end _ t.port_end_range,
  errno_field rule.reject_errno _ t.errno_range,
)

rule-Consumes : Consumes deserialise_rule
unfolding deserialise_rule
rule-Consumes = bind-Consumes _ _ (optional-Consumes _ rule_dir-Consumes) λ _.
    bind-Consumes _ _ (optional-Consumes _ socket_type-Consumes) λ _.
      bind-Consumes _ _ (optional-Consumes _ string-Consumes) λ _.
        bind-Consumes _ _ (optional-Consumes _ (unsigned-Consumes 16)) λ _.
          bind-Consumes _ _ (optional-Consumes _ (unsigned-Consumes 16)) λ _.
            bind-Consumes _ _ (optional-Consumes _ string-Consumes) λ _.
              bind-Consumes _ _ bool-Consumes λ _.
                bind-Consumes _ _ (optional-Consumes _ string-Consumes) λ _.
                  bind-Consumes _ _ bool-Consumes λ _.
                    bind-Consumes _ _ (optional-Consumes _ int-Consumes)
                      λ _. bind-Consumes _ _ bool-Consumes λ _. map-Consumes _ _ bool-Consumes

-- Every list of rules whose fields hold values of their types is read back from its text.
pub deserialise_rules-serialise_rules :
    (rules : List Rule)
    → All InTypes rules
    → deserialise_rules (serialise_rules rules) ≡ ok rules []
unfolding deserialise_rules serialise_rules
deserialise_rules-serialise_rules rules t =
    sequence-RoundTrips serialise_rule deserialise_rule rule-RoundTrips rule-Consumes [] rules t
