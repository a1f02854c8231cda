-- ===== src/Rules.antt =====
-- The data model of src/rules.hh and src/types.hh, built with SYSTEMD_SUPPORT.
-- A string is its list of bytes; a `uint16_t` is a number whose range is stated where it matters.
use ip2unix.Base.{Bool, Option, false, none, ℕ}
use ip2unix.Base.Text.{Bytes}
use ip2unix.Base.Integer.{ℤ}

pub data RuleDir : Type 0 where
  incoming outgoing : RuleDir

pub data SocketType : Type 0 where
  tcp udp invalid : SocketType

pub record Rule : Type 0 where
  pub direction : Option RuleDir
  pub type : Option SocketType
  pub address : Option Bytes
  pub port : Option ℕ
  pub port_end : Option ℕ
  pub socket_activation : Bool
  pub fd_name : Option Bytes
  pub socket_path : Option Bytes
  pub reject : Bool
  pub reject_errno : Option ℤ
  pub blackhole : Bool
  pub ignore : Bool

-- The default member initialisers: `Rule rule;`.
abbrev pub default_rule : Rule
default_rule = record {
  direction = none;
  type = none;
  address = none;
  port = none;
  port_end = none;
  socket_activation = false;
  fd_name = none;
  socket_path = none;
  reject = false;
  reject_errno = none;
  blackhole = false;
  ignore = false;
}
