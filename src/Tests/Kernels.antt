-- ===== src/Tests/Kernels.antt =====
-- An operating system where every call succeeds, and a world with one socket. The state counts calls.
use ip2unix.Base.{List, [], false, none, some, true, ℕ, ◌+◌, ◌∷◌}
use ip2unix.Base.Text.{Bytes, codes}
use ip2unix.Base.Integer.{pos, ℤ}
use ip2unix.Rules.{Rule, udp}
use ip2unix.SockAddr.{unix}
use ip2unix.DynPorts
use ip2unix.Kernel.{Call, Kernel, Process, Tables}
use ip2unix.Socket.{Socket, State, World}
use ip2unix.RuleParser.Yaml.{Yaml, bad_file, parser_exception, scalar}
use ip2unix.Preload.{Loader}
use ip2unix.Tests.Args.{env}
use ip2unix.Tests.Addresses.{net}

abbrev returns : ℤ → Call ℕ ℤ
returns n os = (n, none, os + 1)

abbrev pub kernel : Kernel ℕ
kernel = record {
  socket = λ domain type protocol. returns (pos 9);
  setsockopt = λ fd level optname optval optlen. returns (pos 0);
  ioctl = λ fd request arg. returns (pos 0);
  epoll_ctl = λ epfd op fd event. returns (pos 0);
  listen = λ fd backlog. returns (pos 0);
  bind = λ fd addr len. returns (pos 0);
  connect = λ fd addr len. returns (pos 0);
  accept4 = λ fd to flags os. ((pos 7, none), none, os + 1);
  peer_credentials = λ fd os. (some (record { pid = 5; uid = 6; gid = 7 }), none, os + 1);
  own_credentials = λ os. record { pid = 1; uid = 2; gid = 3 };
  getsockname = λ fd to os. ((pos 0, none), none, os + 1);
  getpeername = λ fd to os. ((pos 0, none), none, os + 1);
  recvfrom = λ fd to os. ((pos 4, some (unix (codes "/run/peer"), 110)), none, os + 1);
  recvmsg = λ fd os. ((pos 4, some (unix (codes "/run/peer"), 110)), none, os + 1);
  sendmsg = λ fd dest. returns (pos 4);
  sendto = λ fd dest. returns (pos 4);
  dup = λ fd. returns (pos 8);
  dup2 = λ oldfd newfd. returns newfd;
  dup3 = λ oldfd newfd flags. returns newfd;
  close = λ fd. returns (pos 0);
  unlink = λ path. returns (pos 0);
  rmdir = λ path. returns (pos 0);
  mkdtemp = λ path os. (some (codes "/tmp/ip2unix.a"), none, os + 1);
  realpath = λ path os. (some path, none, os + 1);
  access_writable = λ path. returns (pos 0);
  stat_is_dir = λ path os. (some true, none, os + 1);
  current_dir = λ os. (some (codes "/"), none, os + 1);
  getenv = λ name os. none;
  setenv = λ name value. returns (pos 0);
  unsetenv = λ name. returns (pos 0);
  socket_domain = λ fd os. (some (pos 1), none, os + 1);
  get_setting = λ setting fd os. (some (pos 0), os + 1);
  set_setting = λ setting fd value os. (true, os + 1);
  get_owner = λ fd os. (some (pos 0, pos 0), os + 1);
  set_owner = λ fd owner os. (true, os + 1);
  random_port = λ os. (2000, os + 1);
  random_offset = λ os. (11, os + 1);
  random_host = λ family os. (42, os + 1);
  inet = net;
}

-- Nodes that are texts, and a loader that finds no file.
abbrev pub texts : Yaml
texts = record {
  Node = Bytes;
  node_type = λ text. scalar;
  elements = λ text. [];
  entries = λ text. [];
  as_string = λ text. some text;
  as_bool = λ text. none;
}

abbrev pub no_file : Loader ℕ
no_file = record {
  yaml = texts;
  env = env;
  load_file = λ name os. bad_file;
  load = λ text. parser_exception;
}

abbrev pub tables : Tables
tables = record {
  fdmap = (0, (pos 3, false)) ∷ [];
  fds = (pos 4, true) ∷ [];
  all_fds = pos 3 ∷ pos 4 ∷ [];
  fetch_done = true;
}

abbrev pub process : Process ℕ
process = record { os = 0; errno = pos 0; tempdir = none; tables = tables }

-- A datagram socket with the descriptor 5, which 6 is a duplicate of.
abbrev pub sock : Socket
sock = record {
  type = udp;
  rewrite_peer_address = true;
  fd = pos 5;
  domain = pos 2;
  typearg = pos 2;
  protocol = pos 0;
  activated = false;
  binding = none;
  connection = none;
  unlink_sockpath = none;
  sockopts = [];
  ports = DynPorts.create 2000 11;
  peermap = [];
  revpeermap = [];
  is_unix = false;
  is_blackhole = false;
  reuse_addr = false;
  blackhole_ref = none;
}

abbrev pub world_with : List Rule → World ℕ
world_with rules = record {
  process = process;
  sockets = some sock ∷ [];
  registry = (pos 5, 0) ∷ (pos 6, 0) ∷ [];
  sockpaths = [];
  g_rules = some rules;
}

abbrev pub state_with : List Rule → State ℕ
state_with rules = record { this = 0; self = sock; world = world_with rules }
