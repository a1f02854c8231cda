-- ===== src/SockOpts/Replay.antt =====
-- What `replay` does with the queue of the options.
use ip2unix.Base.{Bool, List, Option, [], false, if◌then◌else◌, take, true, ℕ, ◌++◌, ◌==◌, ◌∷◌, ◌≡◌}
use ip2unix.Base.Integer.{ℤ}
use ip2unix.Base.Text.{Bytes}
use ip2unix.SockOpts.{
  EpollEvent, SockOpts, System, cache_epoll_ctl, cache_ioctl, cache_sockopt, entry_epoll_ctl,
  entry_ioctl, entry_sockopt, replay_entry,
}

-- What the program asked of a socket before its conversion.
pub data Asked : Type 0 where
  sets_option : (level optname : ℤ) → (value : Bytes) → (len : ℕ) → Asked
  makes_ioctl : (request : ℕ) → (arg : Bytes) → Asked
  polls : (epfd op : ℤ) → (event : Option EpollEvent) → Asked

abbrev pub cache : SockOpts → Asked → SockOpts
cache entries (sets_option level optname value len) = cache_sockopt entries level optname value len
cache entries (makes_ioctl request arg) = cache_ioctl entries request arg
cache entries (polls epfd op event) = cache_epoll_ctl entries epfd op event

abbrev pub cache_all : SockOpts → List Asked → SockOpts
cache_all entries [] = entries
cache_all entries (asked ∷ more) = cache_all (cache entries asked) more

-- What is to be replayed: everything that was asked, in its order, but for ioctls of other kinds.
unfoldable pub to_replay : List Asked → SockOpts
to_replay [] = []
to_replay (sets_option level optname value len ∷ more) =
    entry_sockopt level optname (take len value) ∷ to_replay more
to_replay (makes_ioctl request arg ∷ more) =
    let rest = to_replay more in
    if request == 35074
    then entry_ioctl request (take 4 arg) ∷ rest
    else if request == 21586
    then entry_ioctl request (take 4 arg) ∷ rest
    else rest
to_replay (polls epfd op event ∷ more) = entry_epoll_ctl epfd op event ∷ to_replay more

module _ {S : Type 0} (system : System S) where
  -- Every entry is replayed, one after the other, and succeeds.
  abbrev pub Replays : ℤ → SockOpts → S → S → Type 0
  Replays fd [] s t = s ≡ t
  Replays fd (e ∷ es) s t = (u : S) × (replay_entry system fd e s ≡ (true, u)) × Replays fd es u t

  -- After the loop: `rest` is the queue and `t` the state it leaves.
  abbrev pub Ends : ℤ → SockOpts → S → Bool × SockOpts × S → Type 0
  Ends fd es s (true, rest, t) = (rest ≡ []) × Replays fd es s t
  Ends fd es s (false, [], t) = ⊥
  Ends fd es s (false, e ∷ rest, t) =
      (done : SockOpts) × (u : S) × (es ≡ done ++ (e ∷ rest))
      × Replays fd done s u
      × (replay_entry system fd e u ≡ (false, t))
