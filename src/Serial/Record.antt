-- ===== src/Serial/Record.antt =====
-- The overloads for `Rule`, and the sequence of rules that the wrapper hands to the library.
pub mod RoundTrip
use ip2unix.Base.{List, [], ◌++◌}
use ip2unix.Base.Text.{Bytes}
use ip2unix.Rules.{Rule}
use ip2unix.Serial.Stream.{Reader, pure, ◌>>=◌, ◌>>◌}
use ip2unix.Serial.Scalar.{
  deserialise_bool, deserialise_int, deserialise_rule_dir, deserialise_socket_type,
  deserialise_string, deserialise_unsigned, serialise_bool, serialise_int, serialise_rule_dir,
  serialise_socket_type, serialise_string, serialise_unsigned,
}
use ip2unix.Serial.Container.{
  deserialise_optional, deserialise_sequence, serialise_optional, serialise_sequence,
}

unfoldable pub serialise_rule : Rule → Bytes
serialise_rule rule =
    serialise_optional serialise_rule_dir rule.direction
    ++ (serialise_optional serialise_socket_type rule.type
        ++ (serialise_optional serialise_string rule.address
            ++ (serialise_optional serialise_unsigned rule.port
                ++ (serialise_optional serialise_unsigned rule.port_end
                    ++ (serialise_optional serialise_string rule.socket_path
                        ++ (serialise_bool rule.socket_activation
                            ++ (serialise_optional serialise_string rule.fd_name
                                ++ (serialise_bool rule.reject
                                    ++ (serialise_optional serialise_int rule.reject_errno
                                        ++ (serialise_bool rule.blackhole
                                            ++ serialise_bool rule.ignore))))))))))

unfoldable pub deserialise_rule : Reader Rule
deserialise_rule = do
  direction ← deserialise_optional deserialise_rule_dir
  type ← deserialise_optional deserialise_socket_type
  address ← deserialise_optional deserialise_string
  port ← deserialise_optional (deserialise_unsigned 16)
  port_end ← deserialise_optional (deserialise_unsigned 16)
  socket_path ← deserialise_optional deserialise_string
  socket_activation ← deserialise_bool
  fd_name ← deserialise_optional deserialise_string
  reject ← deserialise_bool
  reject_errno ← deserialise_optional deserialise_int
  blackhole ← deserialise_bool
  ignore ← deserialise_bool
  pure (record {
    direction = direction;
    type = type;
    address = address;
    port = port;
    port_end = port_end;
    socket_activation = socket_activation;
    fd_name = fd_name;
    socket_path = socket_path;
    reject = reject;
    reject_errno = reject_errno;
    blackhole = blackhole;
    ignore = ignore;
  })

-- `serialise(rules)` in the wrapper, and its inverse in `init_rules`.
unfoldable pub serialise_rules : List Rule → Bytes
serialise_rules = serialise_sequence serialise_rule

unfoldable pub deserialise_rules : Reader (List Rule)
deserialise_rules = deserialise_sequence deserialise_rule []
