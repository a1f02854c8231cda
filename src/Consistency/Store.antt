-- ===== src/Consistency/Store.antt =====
-- `Socket::when` and the sweep after it keep the sockets of the store sound.
use ip2unix.Base.{
  All, Bool, List, Option, [], false, if_cases, if◌then◌else◌, none, refl, some, suc, sym, true, ℕ,
  ◌∷◌, ◌≡◌,
}
use ip2unix.Base.Integer.{int_eq, ℤ}
use ip2unix.Base.Dict.{find}
use ip2unix.Effect.{
  >>=-Ensures, Effect, Ensures, any_Ensures, elim_Ensures, pure, weaken_Ensures, ◌>>=◌, ◌>>◌,
}
use ip2unix.Kernel.{Kernel, Process}
use ip2unix.Socket.{Socket, State, World, in_world, on_world}
use ip2unix.Socket.Close.{at_pointer, destroy, put_socket, with_this}
use ip2unix.Socket.Registry.{keep_or_destroy, referenced, release, sweep, when}
use ip2unix.Socket.Registry.Lifetime.{Swept, place, sweep-Swept}
use ip2unix.Consistency.Alive.{
  Swept-IsSoundStore, at_pointer-place, pointer-Holds, put_socket-IsSoundStore, sound_cells,
}
use ip2unix.Consistency.{Holds, IsConsistent, IsSound, IsSoundCell, Keeps}

module _ {S : Type 0} (kernel : Kernel S) where
  -- Between two methods.
  abbrev pub Stays : {A : Type 0} → Effect (World S) A → Type 0
  Stays m = (w : World S) → IsConsistent w → Ensures (λ _ v. IsConsistent v) (m w)

  pub with_this-Stays :
      {A : Type 0} (p : ℕ) (method : Effect (State S) A)
      → Keeps IsSound method
      → Stays (with_this kernel p method)
  unfolding with_this at_pointer
  with_this-Stays {A = A} p method h w c =
      at_cell (at_pointer kernel w p) (at_pointer-place kernel w p)
    where
      written :
          (r : Option (A × State S))
          → Ensures (λ _ t. Holds IsSound t) r
          → Ensures
              (λ _ v. IsConsistent v)
              (elim r as (λ _. Option (A × World S)) [
                | none ↦ none
                | some (a, t) ↦ some (
                  a,
                  record t.world { sockets = put_socket kernel t.world.sockets p (some t.self) },
                )
              ])
      written none j = tt
      written (some (a, t)) j =
          put_socket-IsSoundStore kernel t.world.sockets t.world.registry t.self p t.this j.0 j.1

      at_cell :
          (cell : Option Socket)
          → cell ≡ place w.sockets p
          → Ensures
              (λ _ v. IsConsistent v)
              (elim cell as (λ _. Option (A × World S)) [
                | none ↦ none
                | some sock ↦ elim (method (record { this = p; self = sock; world = w })) [
                  | none ↦ none
                  | some (a, t) ↦ some (
                    a,
                    record t.world { sockets = put_socket kernel t.world.sockets p (some t.self) },
                  )
                ]
              ])
      at_cell none e = tt
      at_cell (some sock) e =
          let s : State S = record { this = p; self = sock; world = w } in
          let found = pointer-Holds w.sockets w.registry p sock (sym e) c in
          written (method s) (h s found)

  keep_or_destroy-Ensures :
      (held : Bool) (sock : Socket) (p : Process S)
      → IsSound sock
      → Ensures (λ cell _. IsSoundCell cell) (keep_or_destroy kernel held sock p)
  keep_or_destroy-Ensures true sock p h = h
  keep_or_destroy-Ensures false sock p h =
      >>=-Ensures (λ _ _. Unit {0}) (λ cell _. IsSoundCell cell) (destroy kernel sock)
        (λ _. pure none) p (any_Ensures (destroy kernel sock p)) λ _ _ _. tt

  sweep-Ensures :
      (registry : List (ℤ × ℕ)) (n : ℕ) (sockets : List (Option Socket)) (p : Process S)
      → All IsSoundCell sockets
      → Ensures (λ cells _. All IsSoundCell cells) (sweep kernel registry n sockets p)
  unfolding sweep
  sweep-Ensures registry n [] p c = tt
  sweep-Ensures registry n (none ∷ cells) p c =
      >>=-Ensures (λ rest _. All IsSoundCell rest) (λ cells' _. All IsSoundCell cells')
        (sweep kernel registry (suc n) cells) (λ rest. pure (none ∷ rest)) p
        (sweep-Ensures registry (suc n) cells p c.1) λ rest _ d. (tt, d)
  sweep-Ensures registry n (some sock ∷ cells) p c =
      >>=-Ensures (λ cell _. IsSoundCell cell) (λ cells' _. All IsSoundCell cells')
        (keep_or_destroy kernel (referenced registry n) sock)
        (λ cell. sweep kernel registry (suc n) cells >>= λ rest. pure (cell ∷ rest)) p
        (keep_or_destroy-Ensures (referenced registry n) sock p c.0)
        λ cell q h.
          >>=-Ensures (λ rest _. All IsSoundCell rest) (λ cells' _. All IsSoundCell cells')
            (sweep kernel registry (suc n) cells) (λ rest. pure (cell ∷ rest)) q
            (sweep-Ensures registry (suc n) cells q c.1) λ rest _ d. (h, d)

  pub release-Stays : Stays (release kernel)
  unfolding release
  release-Stays w c =
      swept (sweep kernel w.registry 0 w.sockets w.process)
        (sweep-Ensures w.registry 0 w.sockets w.process (sound_cells w.sockets w.registry c))
        (sweep-Swept kernel w.registry 0 w.sockets w.process)
    where
      swept :
          (r : Option (List (Option Socket) × Process S))
          → Ensures (λ cells _. All IsSoundCell cells) r
          → Ensures (λ cells _. Swept kernel w.registry 0 w.sockets cells) r
          → Ensures
              (λ _ v. IsConsistent v)
              (elim (elim r as (λ _. Option (List (Option Socket) × World S)) [
                | none ↦ none
                | some (cells, p) ↦ some (cells, record w { process = p })
              ])
                as (λ _. Option (Unit {0} × World S)) [
                  | none ↦ none
                  | some (cells, v) ↦ some (tt, record v { sockets = cells })
                ])
      swept none h k = tt
      swept (some (cells, p)) h k = Swept-IsSoundStore kernel w.sockets cells w.registry h k c

  pub then_Stays :
      {A B : Type 0} (m : Effect (World S) A) (f : A → Effect (World S) B)
      → Stays m
      → ((a : A) → Stays (f a))
      → Stays (m >>= f)
  then_Stays m f h k w c =
      >>=-Ensures (λ _ v. IsConsistent v) (λ _ v. IsConsistent v) m f w (h w c) λ a v d. k a v d

  pub if_Stays :
      {A : Type 0} (b : Bool) (m n : Effect (World S) A)
      → Stays m
      → Stays n
      → Stays (if b then m else n)
  if_Stays {A = A} b m n h k =
      if_cases (λ (e : Effect (World S) A). Stays e) b m n (λ _. h) (λ _. k)

  pub when-Stays :
      {A : Type 0} (fd : ℤ) (method : Effect (State S) A) (otherwise : Effect (World S) A)
      → Keeps IsSound method
      → Stays otherwise
      → Stays (when kernel fd method otherwise)
  unfolding when
  when-Stays fd method otherwise h k w c =
      elim_Ensures (λ _ v. IsConsistent v) w (find int_eq w.registry fd) otherwise _ (λ _. k w c)
        λ p _.
          then_Stays (with_this kernel p method) (λ a. release kernel >> pure a)
            (with_this-Stays p method h)
            (λ a. then_Stays (release kernel) (λ _. pure a) release-Stays λ _ v d. d) w c

  -- What leaves the store and the registry as they are.
  abbrev pub Leaves : {A : Type 0} → Effect (World S) A → Type 0
  Leaves m =
      (w : World S)
      → Ensures (λ _ (v : World S). (v.sockets ≡ w.sockets) × (v.registry ≡ w.registry)) (m w)

  pub on_world-Keeps : {A : Type 0} (m : Effect (World S) A) → Leaves m → Keeps IsSound (on_world m)
  on_world-Keeps {A = A} m h s (i, c) = called (m s.world) (h s.world)
    where
      called :
          (r : Option (A × World S))
          → Ensures
              (λ _ (v : World S). (v.sockets ≡ s.world.sockets) × (v.registry ≡ s.world.registry))
              r
          → Ensures
              (λ _ t. Holds IsSound t)
              (elim r as (λ _. Option (A × State S)) [
                | none ↦ none
                | some (a, v) ↦ some (a, record s { world = v })
              ])
      called none j = tt
      called (some (a, v)) j = (i, rw (j.0, j.1) c)

  pub Leaves-Stays : {A : Type 0} (m : Effect (World S) A) → Leaves m → Stays m
  Leaves-Stays m h w c =
      weaken_Ensures (λ _ (v : World S). (v.sockets ≡ w.sockets) × (v.registry ≡ w.registry))
        (λ _ v. IsConsistent v) (m w) (λ _ v e. rw (e.0, e.1) c) (h w)

  pub in_world-Leaves : {A : Type 0} (m : Effect (Process S) A) → Leaves (in_world m)
  in_world-Leaves {A = A} m w = called (m w.process)
    where
      called :
          (r : Option (A × Process S))
          → Ensures
              (λ _ (v : World S). (v.sockets ≡ w.sockets) × (v.registry ≡ w.registry))
              (elim r as (λ _. Option (A × World S)) [
                | none ↦ none
                | some (a, p) ↦ some (a, record w { process = p })
              ])
      called none = tt
      called (some (a, p)) = (refl, refl)

  pub then_Leaves :
      {A B : Type 0} (m : Effect (World S) A) (f : A → Effect (World S) B)
      → Leaves m
      → ((a : A) → Leaves (f a))
      → Leaves (m >>= f)
  then_Leaves m f h k w =
      >>=-Ensures (λ _ (v : World S). (v.sockets ≡ w.sockets) × (v.registry ≡ w.registry))
        (λ _ (u : World S). (u.sockets ≡ w.sockets) × (u.registry ≡ w.registry)) m f w (h w)
        λ a v e.
          weaken_Ensures (λ _ (u : World S). (u.sockets ≡ v.sockets) × (u.registry ≡ v.registry))
            (λ _ (u : World S). (u.sockets ≡ w.sockets) × (u.registry ≡ w.registry)) (f a v)
            (λ _ u d. (cc, cc)) (k a v)

  pub in_world-Stays : {A : Type 0} (m : Effect (Process S) A) → Stays (in_world m)
  in_world-Stays m = Leaves-Stays (in_world m) (in_world-Leaves m)
