-- ===== src/SockOpts.antt =====
-- src/sockopts.hh and src/sockopts.cc: the options that were set on a socket, for the socket that
-- takes its place. The system calls act on a state `S` of the operating system.
pub mod Replay
use ip2unix.Base.{
  Bool, List, Option, [], false, if◌then◌else◌, none, some, take, true, ℕ, ◌++◌, ◌==◌, ◌||◌, ◌∷◌,
}
use ip2unix.Base.Text.{Bytes}
use ip2unix.Base.Integer.{ℤ}

pub record EpollEvent : Type 0 where
  pub events : ℕ
  pub event_data : ℕ

pub data Entry : Type 0 where
  entry_sockopt : (level optname : ℤ) → (optval : Bytes) → Entry
  entry_ioctl : (request : ℕ) → (arg : Bytes) → Entry
  entry_epoll_ctl : (epfd op : ℤ) → (event : Option EpollEvent) → Entry

-- The queue `entries`, its front first.
abbrev pub SockOpts : Type 0
SockOpts = List Entry

abbrev pub siocspgrp : ℕ
siocspgrp = 35074

abbrev pub fioasync : ℕ
fioasync = 21586

-- `value` is the memory at `val`, of which `len` bytes are copied.
unfoldable pub cache_sockopt : SockOpts → ℤ → ℤ → Bytes → ℕ → SockOpts
cache_sockopt entries lvl name value len = entries ++ (entry_sockopt lvl name (take len value) ∷ [])

-- Only two requests are kept, each with an argument of four bytes.
unfoldable pub cache_ioctl : SockOpts → ℕ → Bytes → SockOpts
cache_ioctl entries request ioarg =
    if request == siocspgrp || request == fioasync
    then entries ++ (entry_ioctl request (take 4 ioarg) ∷ [])
    else entries

unfoldable pub cache_epoll_ctl : SockOpts → ℤ → ℤ → Option EpollEvent → SockOpts
cache_epoll_ctl entries epfd op event = entries ++ (entry_epoll_ctl epfd op event ∷ [])

pub data Setting : Type 0 where
  fd_flags status_flags signal : Setting

-- The system calls; `none` and `false` are the result -1.
pub record System (S : Type 0) : Type 0 where
  pub get_setting : Setting → ℤ → S → Option ℤ × S
  pub set_setting : Setting → ℤ → ℤ → S → Bool × S
  pub get_owner : ℤ → S → Option (ℤ × ℤ) × S
  pub set_owner : ℤ → ℤ × ℤ → S → Bool × S
  pub setsockopt : ℤ → ℤ → ℤ → Bytes → S → Bool × S
  pub ioctl : ℤ → ℕ → Bytes → S → Bool × S
  pub epoll_ctl : ℤ → ℤ → ℤ → Option EpollEvent → S → Bool × S

module _ {S : Type 0} (system : System S) where
  -- A value that was got is set, unless getting it failed.
  unfoldable pub set_got : {A : Type 0} → (A → S → Bool × S) → Option A × S → Bool × S
  set_got set (none, s) = (false, s)
  set_got set (some value, s) = set value s

  unfoldable pub copy_fd_owner : ℤ → ℤ → S → Bool × S
  unfolding set_got
  copy_fd_owner old_sockfd new_sockfd s =
      set_got (system.set_owner new_sockfd) (system.get_owner old_sockfd s)

  unfoldable pub copy_fcntl : ℤ → ℤ → Setting → S → Bool × S
  unfolding set_got
  copy_fcntl old_sockfd new_sockfd setting s =
      set_got (system.set_setting setting new_sockfd) (system.get_setting setting old_sockfd s)

  unfoldable pub replay_entry : ℤ → Entry → S → Bool × S
  replay_entry fd (entry_sockopt level optname optval) s =
      system.setsockopt fd level optname optval s
  replay_entry fd (entry_ioctl request arg) s = system.ioctl fd request arg s
  replay_entry fd (entry_epoll_ctl epfd op event) s = system.epoll_ctl epfd op fd event s

  -- The end of a round of the `while` loop: a failed entry stays in front of the queue.
  unfoldable pub after_entry :
      Entry → SockOpts → Bool × S → (S → Bool × SockOpts × S) → Bool × SockOpts × S
  after_entry current entries (false, s) again = (false, current ∷ entries, s)
  after_entry current entries (true, s) again = again s

  unfoldable pub replay_entries : ℤ → SockOpts → S → Bool × SockOpts × S
  unfolding after_entry replay_entry
  replay_entries fd [] s = (true, [], s)
  replay_entries fd (current ∷ entries) s =
      after_entry current entries (replay_entry fd current s) (replay_entries fd entries)

  -- `if (!copy…) return false`.
  unfoldable pub or_return : SockOpts → Bool × S → (S → Bool × SockOpts × S) → Bool × SockOpts × S
  or_return entries (false, s) next = (false, entries, s)
  or_return entries (true, s) next = next s

  -- The result, the queue and the system's state.
  unfoldable pub replay : SockOpts → ℤ → ℤ → S → Bool × SockOpts × S
  unfolding or_return replay_entries copy_fcntl copy_fd_owner
  replay entries old_sockfd new_sockfd s =
      or_return entries (copy_fcntl old_sockfd new_sockfd fd_flags s) λ s.
        or_return entries (copy_fcntl old_sockfd new_sockfd status_flags s) λ s.
          or_return entries (copy_fcntl old_sockfd new_sockfd signal s) λ s.
            or_return entries (copy_fd_owner old_sockfd new_sockfd s)
              (replay_entries new_sockfd entries)
