-- ===== src/Consistency/Options.antt =====
-- `setsockopt`, `ioctl`, `epoll_ctl` and `listen` keep sockets sound.
use ip2unix.Base.{Option, arith, ℕ}
use ip2unix.Base.Text.{Bytes}
use ip2unix.Base.Integer.{ℤ}
use ip2unix.Kernel.{Kernel}
use ip2unix.SockOpts.{EpollEvent}
use ip2unix.Socket.Options.{
  epoll_ctl, ioctl, keep_epoll_ctl, keep_if_set, keep_ioctl, keep_sockopt, listen, setsockopt,
}
use ip2unix.Consistency.{IsSound, Keeps}

module _ {S : Type 0} (kernel : Kernel S) where
  pub setsockopt-Keeps :
      (level optname : ℤ) (optval : Bytes) (optlen : ℕ)
      → Keeps IsSound (setsockopt kernel level optname optval optlen)
  unfolding setsockopt keep_if_set keep_sockopt
  setsockopt-Keeps level optname optval optlen s (i, c) = ground arith

  pub ioctl-Keeps : (request : ℕ) (arg : Bytes) → Keeps IsSound (ioctl kernel request arg)
  unfolding ioctl keep_if_set keep_ioctl
  ioctl-Keeps request arg s (i, c) = ground arith

  pub epoll_ctl-Keeps :
      (epfd op : ℤ) (event : Option EpollEvent) → Keeps IsSound (epoll_ctl kernel epfd op event)
  unfolding epoll_ctl keep_if_set keep_epoll_ctl
  epoll_ctl-Keeps epfd op event s (i, c) = ground arith

  pub listen-Keeps : (backlog : ℤ) → Keeps IsSound (listen kernel backlog)
  unfolding listen
  listen-Keeps backlog s (i, c) = ground arith
