-- ===== src/Consistency/Close.antt =====
-- `Socket::close` and `dup` keep the sockets of the store sound.
use ip2unix.Base.{Option, arith, if_cases, none, some, sym, ℕ, ◌==◌, ◌≡◌}
use ip2unix.Base.Integer.{int_eq, pos, ℤ}
use ip2unix.Base.Dict.{find}
use ip2unix.Effect.{Ensures, pure}
use ip2unix.Kernel.{Kernel}
use ip2unix.Socket.{Socket, State, World, on_world}
use ip2unix.Socket.Close.{
  at_pointer, call_other, close, dup, dup_onto, forget_path, put_socket, register_this, unregister,
  with_this,
}
use ip2unix.Consistency.Alive.{erase-IsPlaced, put-IsPlaced, put_socket-IsAlive}
use mathlib.Core.Path.{subst}
use ip2unix.Consistency.{
  Holds, IsAlive, IsConsistent, IsPlaced, IsSound, Keeps, elim_Keeps, then_Ensures,
}
use ip2unix.Consistency.Store.{with_this-Stays}

module _ {S : Type 0} (kernel : Kernel S) where
  pub close-Keeps : Keeps IsSound (close kernel)
  unfolding close forget_path unregister
  close-Keeps s (i, c) =
      ground (arith, erase-IsPlaced s.world.sockets s.world.registry s.self.fd s.this c)

  pub dup-Keeps : Keeps IsSound (dup kernel)
  unfolding dup register_this
  dup-Keeps s (i, c) = ground (
    arith,
    put-IsPlaced s.world.sockets s.world.registry (kernel.dup s.self.fd s.world.process.os).0 s.this
        c,
  )

  -- `close` of a socket destroys none.
  close_sockets :
      (s : State S)
      → Ensures (λ _ (t : State S). t.world.sockets ≡ s.world.sockets) (close kernel s)
  unfolding close forget_path unregister
  close_sockets s = ground arith

  close_other-IsAlive :
      (p q : ℕ) (w : World S)
      → IsAlive w.sockets q
      → Ensures (λ _ (v : World S). IsAlive v.sockets q) (with_this kernel p (close kernel) w)
  unfolding with_this
  close_other-IsAlive p q w a = at_cell (at_pointer kernel w p)
    where
      written :
          (r : Option (ℤ × State S))
          → Ensures (λ _ (t : State S). t.world.sockets ≡ w.sockets) r
          → Ensures
              (λ _ (v : World S). IsAlive v.sockets q)
              (elim r as (λ _. Option (ℤ × World S)) [
                | none ↦ none
                | some (ret, t) ↦ some (
                  ret,
                  record t.world { sockets = put_socket kernel t.world.sockets p (some t.self) },
                )
              ])
      written none e = tt
      written (some (ret, t)) e =
          put_socket-IsAlive kernel t.world.sockets t.self p q (subst (λ c. IsAlive c q) (sym e) a)

      at_cell :
          (cell : Option Socket)
          → Ensures
              (λ _ (v : World S). IsAlive v.sockets q)
              (elim cell as (λ _. Option (ℤ × World S)) [
                | none ↦ none
                | some sock ↦ elim (close kernel (record { this = p; self = sock; world = w })) [
                  | none ↦ none
                  | some (ret, t) ↦ some (
                    ret,
                    record t.world { sockets = put_socket kernel t.world.sockets p (some t.self) },
                  )
                ]
              ])
      at_cell none = tt
      at_cell (some sock) =
          let s : State S = record { this = p; self = sock; world = w } in
          written (close kernel s) (close_sockets s)

  -- `close` of another socket.
  close_other-Keeps : (p : ℕ) → Keeps IsSound (on_world (with_this kernel p (close kernel)))
  unfolding IsPlaced
  close_other-Keeps p s (i, c) =
      called (with_this kernel p (close kernel) s.world)
        (with_this-Stays kernel p (close kernel) close-Keeps s.world c.0)
        (close_other-IsAlive p s.this s.world c.1)
    where
      called :
          (r : Option (ℤ × World S))
          → Ensures (λ _ v. IsConsistent v) r
          → Ensures (λ _ (v : World S). IsAlive v.sockets s.this) r
          → Ensures
              (λ _ t. Holds IsSound t)
              (elim r as (λ _. Option (ℤ × State S)) [
                | none ↦ none
                | some (ret, v) ↦ some (ret, record s { world = v })
              ])
      called none d a = tt
      called (some (ret, v)) d a = (i, (d, a))

  call_other-Keeps : (p : ℕ) → Keeps IsSound (call_other kernel p (close kernel))
  unfolding call_other
  call_other-Keeps p s i =
      if_cases (λ r. Ensures (λ _ t. Holds IsSound t) r) (p == s.this) (close kernel s)
        (on_world (with_this kernel p (close kernel)) s) (λ _. close-Keeps s i)
        (λ _. close_other-Keeps p s i)

  pub dup_onto-Keeps : (newfd flags : ℤ) → Keeps IsSound (dup_onto kernel newfd flags)
  unfolding dup_onto register_this
  dup_onto-Keeps newfd flags s i =
      then_Ensures IsSound
        (elim (find int_eq s.world.registry newfd) [
          | none ↦ pure (pos 0)
          | some existing ↦ call_other kernel existing (close kernel)
        ])
        _ s i
        (elim_Keeps IsSound (find int_eq s.world.registry newfd) (pure (pos 0)) _ (λ t j. j)
          call_other-Keeps)
        λ closed t (j, d). ground (
          arith,
          put-IsPlaced t.world.sockets t.world.registry
              (kernel.dup3 t.self.fd newfd flags t.world.process.os).0 t.this d,
        )
