-- ===== src/Systemd/RoundTrip.antt =====
-- The tables survive the environment variables that carry them into another process.
use ip2unix.Base.{All, List, [], ℕ, ◌<◌, ◌^◌, ◌≡◌}
use ip2unix.Base.Integer.{InInt32}
use ip2unix.Serial.Stream.{Consumes, RoundTrips, ok}
use ip2unix.Serial.Scalar.{
  deserialise_bool, deserialise_int, deserialise_unsigned, serialise_bool, serialise_int,
  serialise_unsigned,
}
use ip2unix.Serial.Scalar.RoundTrip.{Any, bool-RoundTrips, int-RoundTrips, unsigned-RoundTrips}
use ip2unix.Serial.Scalar.Progress.{bool-Consumes, int-Consumes}
use ip2unix.Serial.Container.{deserialise_pair, serialise_pair}
use ip2unix.Serial.Container.RoundTrip.{pair-RoundTrips, sequence-RoundTrips}
use ip2unix.Serial.Container.Progress.{pair-Consumes}
use ip2unix.Serial.Container.MapTrip.{DistinctKeys, map-RoundTrips}
use ip2unix.Systemd.{FdInfo, key_equal, serialise_fdmap, serialise_fds}
use ip2unix.Systemd.Init.{read_fdmap, read_fds}

abbrev pub InfoOk : FdInfo → Type 0
InfoOk info = InInt32 info.0 × Any info.1

info-RoundTrips :
    RoundTrips InfoOk
      (serialise_pair serialise_int serialise_bool)
      (deserialise_pair deserialise_int deserialise_bool)
info-RoundTrips =
    pair-RoundTrips serialise_int serialise_bool deserialise_int deserialise_bool int-RoundTrips
      bool-RoundTrips

info-Consumes : Consumes (deserialise_pair deserialise_int deserialise_bool)
info-Consumes = pair-Consumes deserialise_int deserialise_bool int-Consumes bool-Consumes

-- The pool and the table by rules are read back from what `update_env` writes, for descriptors that
-- are an `int`, positions that are a `size_t`, and at most one descriptor for a position.
pub tables_round_trip :
    (fds : List FdInfo) (fdmap : List (ℕ × FdInfo))
    → All InfoOk fds
    → All (λ (item : ℕ × FdInfo). (item.0 < 2 ^ 64) × InfoOk item.1) fdmap
    → DistinctKeys key_equal [] fdmap
    → (read_fds [] (serialise_fds fds) ≡ ok fds [])
      × (read_fdmap [] (serialise_fdmap fdmap) ≡ ok fdmap [])
unfolding read_fds serialise_fds read_fdmap serialise_fdmap
tables_round_trip fds fdmap p q d = (
  sequence-RoundTrips (serialise_pair serialise_int serialise_bool)
      (deserialise_pair deserialise_int deserialise_bool) info-RoundTrips info-Consumes [] fds p,
  map-RoundTrips key_equal serialise_unsigned (serialise_pair serialise_int serialise_bool)
      (deserialise_unsigned 64) (deserialise_pair deserialise_int deserialise_bool)
      (unsigned-RoundTrips 64) info-RoundTrips fdmap q d,
)
