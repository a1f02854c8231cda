-- ===== src/Tests/Options.antt =====
-- Cached socket options, replayed where an ioctl fails.
use ip2unix.Base.{List, [], false, none, refl, some, true, ℕ, ◌+◌, ◌∷◌, ◌≡◌}
use ip2unix.Base.Integer.{pos}
use ip2unix.SockOpts.{
  SockOpts, System, cache_ioctl, entry_epoll_ctl, entry_ioctl, entry_sockopt, replay,
}
use ip2unix.SockOpts.Replay.{Asked, makes_ioctl, polls, sets_option}

-- It counts the calls that succeed.
abbrev counting : System ℕ
counting = record {
  get_setting = λ setting fd s. (some (pos 2), s);
  set_setting = λ setting fd value s. (true, s + 1);
  get_owner = λ fd s. (some (pos 0, pos 7), s);
  set_owner = λ fd owner s. (true, s + 1);
  setsockopt = λ fd level optname optval s. (true, s + 1);
  ioctl = λ fd request arg s. (false, s);
  epoll_ctl = λ epfd op fd event s. (true, s + 1);
}

abbrev cached : SockOpts
cached =
    entry_sockopt (pos 1) (pos 9) (1 ∷ [])
    ∷ entry_ioctl 21586 (1 ∷ 0 ∷ 0 ∷ 0 ∷ [])
    ∷ entry_epoll_ctl (pos 5) (pos 1) none
    ∷ []

calls_until_the_failure :
    replay counting cached (pos 3) (pos 4) 0
    ≡ (false, entry_ioctl 21586 (1 ∷ 0 ∷ 0 ∷ 0 ∷ []) ∷ entry_epoll_ctl (pos 5) (pos 1) none ∷ [], 5)
unfolding replay
calls_until_the_failure = refl

requests_that_are_kept :
    (cache_ioctl [] 21586 (1 ∷ 0 ∷ 0 ∷ 0 ∷ 9 ∷ []) ≡ entry_ioctl 21586 (1 ∷ 0 ∷ 0 ∷ 0 ∷ []) ∷ [])
    × (cache_ioctl [] 21585 (1 ∷ 0 ∷ 0 ∷ 0 ∷ []) ≡ [])
unfolding cache_ioctl
requests_that_are_kept = (refl, refl)

abbrev asked : List Asked
asked =
    sets_option (pos 1) (pos 9) (1 ∷ 2 ∷ []) 1
    ∷ makes_ioctl 21585 (1 ∷ 0 ∷ 0 ∷ 0 ∷ [])
    ∷ makes_ioctl 21586 (1 ∷ 0 ∷ 0 ∷ 0 ∷ 9 ∷ [])
    ∷ polls (pos 5) (pos 1) none
    ∷ []
