-- ===== src/Socket/Options.antt =====
-- `Socket::setsockopt`, `ioctl`, `epoll_ctl` and `listen`: what is set on a socket before it becomes
-- a Unix socket is kept, to be set again on the one that takes its place.
use ip2unix.Base.{
  Bool, Option, [], if◌then◌else◌, ltb, not, take, true, ℕ, ◌&&◌, ◌*◌, ◌+◌, ◌^◌, ◌||◌, ◌∷◌,
}
use ip2unix.Base.Text.{Bytes}
use ip2unix.Base.Integer.{int_eq, pos, ℤ}
use ip2unix.Effect.{Effect, pure, ◌>>=◌, ◌>>◌}
use ip2unix.Kernel.{Kernel, call, is_zero}
use ip2unix.SockOpts.{EpollEvent, cache_epoll_ctl, cache_ioctl, cache_sockopt}
use ip2unix.Socket.{Socket, State, get_self, on_process, on_self}

-- An `int` in memory on a little-endian machine, greater than 0.
abbrev little_endian : Bytes → ℕ
little_endian [] = 0
little_endian (c ∷ s) = c + 256 * little_endian s

unfoldable pub int_positive : Bytes → Bool
int_positive optval = let n = little_endian (take 4 optval) in ltb 0 n && ltb n (2 ^ 31)

abbrev pub sol_socket : ℤ
sol_socket = pos 1

abbrev pub so_reuseaddr : ℤ
so_reuseaddr = pos 2

-- The block behind a call that succeeded.
unfoldable pub keep_sockopt : ℤ → ℤ → Bytes → ℕ → Socket → Socket
unfolding int_positive cache_sockopt int_eq
keep_sockopt level optname optval optlen sock =
    if not sock.is_unix && int_eq level sol_socket
    then record sock {
      reuse_addr = sock.reuse_addr || (int_eq optname so_reuseaddr && int_positive optval);
      sockopts = cache_sockopt sock.sockopts level optname optval optlen;
    }
    else sock

unfoldable pub keep_ioctl : ℕ → Bytes → Socket → Socket
unfolding cache_ioctl
keep_ioctl request arg sock =
    if not sock.is_unix
    then record sock { sockopts = cache_ioctl sock.sockopts request arg }
    else sock

unfoldable pub keep_epoll_ctl : ℤ → ℤ → Option EpollEvent → Socket → Socket
unfolding cache_epoll_ctl
keep_epoll_ctl epfd op event sock =
    if not sock.is_unix
    then record sock { sockopts = cache_epoll_ctl sock.sockopts epfd op event }
    else sock

module _ {S : Type 0} (kernel : Kernel S) where
  -- `if (ret != 0) return ret;`, then `keep`, and `ret` again.
  unfoldable pub keep_if_set : (Socket → Socket) → ℤ → Effect (State S) ℤ
  keep_if_set keep ret = if is_zero ret then (do on_self keep; pure ret) else pure ret

  unfoldable pub setsockopt : ℤ → ℤ → Bytes → ℕ → Effect (State S) ℤ
  unfolding keep_if_set keep_sockopt int_eq
  setsockopt level optname optval optlen = do
    sock ← get_self
    if sock.is_unix && not (int_eq level sol_socket) then pure (pos 0) else do
      ret ← on_process (call (kernel.setsockopt sock.fd level optname optval optlen))
      keep_if_set (keep_sockopt level optname optval optlen) ret

  unfoldable pub ioctl : ℕ → Bytes → Effect (State S) ℤ
  unfolding keep_if_set keep_ioctl
  ioctl request arg = do
    sock ← get_self
    ret ← on_process (call (kernel.ioctl sock.fd request arg))
    keep_if_set (keep_ioctl request arg) ret

  unfoldable pub epoll_ctl : ℤ → ℤ → Option EpollEvent → Effect (State S) ℤ
  unfolding keep_if_set keep_epoll_ctl
  epoll_ctl epfd op event = do
    sock ← get_self
    ret ← on_process (call (kernel.epoll_ctl epfd op sock.fd event))
    keep_if_set (keep_epoll_ctl epfd op event) ret

  unfoldable pub listen : ℤ → Effect (State S) ℤ
  listen backlog = do
    sock ← get_self
    if sock.activated then pure (pos 0) else on_process (call (kernel.listen sock.fd backlog))

-- `Socket::blackhole`.
abbrev pub blackhole : Socket → Socket
blackhole sock = record sock { is_blackhole = true }
