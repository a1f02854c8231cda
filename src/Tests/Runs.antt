-- ===== src/Tests/Runs.antt =====
-- A program that makes a socket, binds it and asks for its name, from its first call on.
use ip2unix.Base.{Option, none, refl, some, ℕ}
use ip2unix.Base.Text.{codes}
use ip2unix.Base.Integer.{pos, ℤ}
use ip2unix.Kernel.{Kernel}
use ip2unix.Serial.Record.{deserialise_rule}
use ip2unix.Serial.Container.{deserialise_optional}
use ip2unix.Serial.Scalar.{
  deserialise_rule_dir, deserialise_string, extract_number, extract_unsigned,
}
use ip2unix.SockAddr.{inet}
use ip2unix.Socket.{World, new_socket}
use ip2unix.Preload.Calls
use ip2unix.Consistency.{IsConsistent}
use ip2unix.Consistency.Runs.{
  Leads, Reachable, Reachable-IsConsistent, after, bind_step, initial, socket_step, start,
}
use ip2unix.Tests.Kernels.{kernel, no_file, process}

-- The kernel with a rule in the environment.
abbrev ruled : Kernel ℕ
ruled = record kernel { getenv = λ name os. some (codes "i!!80&90&/run/web&f!f!ff") }

abbrev world_after : Option (ℤ × World ℕ) → World ℕ
world_after none = initial process
world_after (some (ret, w)) = w

abbrev with_socket : World ℕ
with_socket = world_after (Calls.socket ruled no_file (pos 2) (pos 2) (pos 0) (initial process))

makes_socket :
    Leads (Calls.socket ruled no_file (pos 2) (pos 2) (pos 0)) (initial process) with_socket
unfolding Calls.socket
makes_socket = (pos 9, refl)

abbrev with_binding : World ℕ
with_binding = world_after (Calls.bind ruled no_file (pos 9) (inet 80 1) 16 with_socket)

binds_socket : Leads (Calls.bind ruled no_file (pos 9) (inet 80 1) 16) with_socket with_binding
unfolding Calls.bind Calls.socket deserialise_rule deserialise_optional deserialise_rule_dir
    extract_unsigned extract_number deserialise_string new_socket
binds_socket = (pos 0, refl)

abbrev binding_run : Reachable ruled no_file with_binding
binding_run =
    after with_socket with_binding
      (after (initial process) with_socket (start process)
        (socket_step (pos 2) (pos 2) (pos 0) makes_socket))
      (bind_step (pos 9) (inet 80 1) 16 binds_socket)

Reachable-IsConsistent_example : IsConsistent with_binding
Reachable-IsConsistent_example = Reachable-IsConsistent ruled no_file with_binding binding_run
