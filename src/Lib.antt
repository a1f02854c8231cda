-- ===== src/Lib.antt =====
-- ip2unix turns the IP sockets of a program into Unix domain sockets. A wrapper program
-- (src/ip2unix.cc) parses rules and passes them as text in an environment variable to a preloaded
-- library (src/preload.cc), which matches every address that is bound or connected against them.
-- The model is built with SYSTEMD_SUPPORT and HAS_EPOLL, for Linux.
--
-- Parts, and the files that model them:
-- - Rules: the structures of src/rules.hh and src/types.hh.
-- - Serial: src/serial.hh and src/serial.cc. Stream is the input stream, Scalar the strings,
--   enumerations and numbers, Container the templates, Record the rules. The loop that
--   reads a string is counted in rounds; a read that is not done after one round more than the stream
--   has bytes, when it only meets the end of the stream, has the result `hang`. Memory is taken to be
--   unlimited there. The loops over a container take as much fuel as the stream has bytes, and each
--   round uses one byte at least.
-- - RuleParser: src/rules/parse.cc. Port has `string2port` and `parse_errno`, Validate
--   `validate_rule`, Arg `parse_rule_arg`, Yaml `parse_rules`, Print `print_rules`, InTypes the ranges
--   of the numbers that are read. `throws` is an exception of the standard library.
-- - Matching: `match_rule` of src/preload.cc, on the rules that Serial has read.
-- - DynPorts: src/dynports/dynports.cc and src/dynports.hh. `none` is the exception of
--   `rotate_port`, whose 64512 rounds are the source's own bound.
-- - SockAddr: src/sockaddr.cc and src/sockaddr.hh.
-- - SockOpts: src/sockopts.cc and src/sockopts.hh. The system calls are a record of functions on a
--   state of the operating system.
-- - Effect: how stateful code is written. Kernel: the calls of libc, as a record of functions on a
--   state of the operating system, and the state of the process.
-- - BlackHole: src/blackhole.cc and src/blackhole.hh.
-- - Socket: src/socket.cc and src/socket.hh. A socket is a record in a store, because several
--   descriptors may stand for it; a method has the socket and the world around it as its state.
--   Path has the placeholders of paths, Options the calls that are kept for later, Unix the
--   conversion, Bind and Connect the calls of these names, Peers the addresses that the program
--   sees, Close the end of descriptors, and Registry `Socket::when`. The destructor of a socket runs
--   when the last std::shared_ptr to it goes; Registry has a sweep over the store in its place, which
--   is the standard library's part and no code of the source.
-- - Systemd: src/systemd.cc and src/systemd.hh; Init is `Systemd::init`.
-- - Preload: src/preload.cc. Its rules are read once, as in the source; Calls has the entry points.
-- - Consistency: an invariant of the sockets, kept by every method and entry point, and the runs
--   of a program as a step relation.
-- - Wrapper: src/ip2unix.cc, from the options that `getopt_long` returns to the environment that
--   the program is launched in. Handover takes the rules from there to the library, RuleFile has
--   the files of rules.
-- - Logging: src/logging.cc and src/logging.hh. A value in a message is the text that the stream makes
--   of it; what `fstat` says of the error output, `getpid` and writing to `std::cerr`, which may change
--   errno, are arguments. Wrapper/Verbosity takes the option `-v` to it.
-- - RealCalls: src/realcalls.cc and src/realcalls.hh, over a record of the calls of the dynamic
--   linker; Cache has the table of function pointers. The other parts call libc by Kernel.
-- - GlobPath: src/globpath.cc. A loop over the pattern takes as much fuel as the pattern is long
--   and one more, the loop behind a wildcard the length of the path and two more, and the outer
--   loop both lengths and two more, as every round moves a position forward.
--   Class has the classes of characters. ClassText and Meaning are relations for what classes and
--   patterns mean, apart from the loops.
--
-- Base has the shared names, byte strings, decimal numerals and the type of a signed int; Tests has
-- runs on concrete inputs and the theorems at inputs that meet their hypotheses.
--
-- From outside: libc's `inet_pton` and `inet_ntop`, the generated table of errno names, the working
-- directory, random numbers, yaml-cpp and the system calls are arguments. The generated table of port
-- offsets enters as the hypothesis that an offset is a unit modulo 64512.
--
-- Not modelled: where the other parts log a message, locks (the calls of the library are taken one
-- after the other), the payload of packets, and the texts that the wrapper writes on the terminal.
pub mod Base
pub mod Rules
pub mod Serial
pub mod RuleParser
pub mod Tests
pub mod DynPorts
pub mod SockAddr
pub mod Matching
pub mod GlobPath
pub mod SockOpts
pub mod Effect
pub mod Kernel
pub mod BlackHole
pub mod Socket
pub mod Preload
pub mod Consistency
pub mod Wrapper
pub mod Systemd
pub mod Logging
pub mod RealCalls
