-- ===== src/Socket/Registry.antt =====
-- `Socket::when`, and the end of sockets that no descriptor stands for.
pub mod Lifetime
use ip2unix.Base.{Bool, List, Option, [], false, none, some, suc, true, ℕ, ◌==◌, ◌||◌, ◌∷◌}
use ip2unix.Base.Integer.{int_eq, ℤ}
use ip2unix.Base.Dict.{find}
use ip2unix.Effect.{Effect, gets, modify, pure, ◌>>=◌, ◌>>◌}
use ip2unix.Kernel.{Kernel, Process}
use ip2unix.Socket.{Socket, State, World, in_world}
use ip2unix.Socket.Close.{destroy, with_this}

-- Whether a `shared_ptr` in the registry holds the socket.
unfoldable pub referenced : List (ℤ × ℕ) → ℕ → Bool
referenced [] p = false
referenced ((fd, q) ∷ registry) p = q == p || referenced registry p

module _ {S : Type 0} (kernel : Kernel S) where
  abbrev pub keep_or_destroy : Bool → Socket → Effect (Process S) (Option Socket)
  keep_or_destroy true sock = pure (some sock)
  keep_or_destroy false sock = do destroy kernel sock; pure none

  -- Sockets whose last `shared_ptr` is gone are destroyed. `n` is the pointer to the first of these.
  unfoldable pub sweep :
      List (ℤ × ℕ) → ℕ → List (Option Socket) → Effect (Process S) (List (Option Socket))
  unfolding referenced destroy
  sweep registry n [] = pure []
  sweep registry n (none ∷ cells) = do rest ← sweep registry (suc n) cells; pure (none ∷ rest)
  sweep registry n (some sock ∷ cells) = do
    kept ← keep_or_destroy (referenced registry n) sock
    rest ← sweep registry (suc n) cells
    pure (kept ∷ rest)

  -- At the end of a call, where the last copies of pointers are dropped.
  unfoldable pub release : Effect (World S) (Unit {0})
  unfolding sweep
  release w =
      (do
        sockets ← in_world (sweep w.registry 0 w.sockets)
        modify λ (w' : World S). record w' { sockets = sockets })
        w

  -- `Socket::when(fd, method, otherwise)`.
  unfoldable pub when :
      {A : Type 0} → ℤ → Effect (State S) A → Effect (World S) A → Effect (World S) A
  unfolding find int_eq with_this release
  when fd method otherwise = do
    registry ← gets λ (w : World S). w.registry
    elim (find int_eq registry fd) [
      | none ↦ otherwise
      | some p ↦ do a ← with_this kernel p method; release; pure a
    ]
