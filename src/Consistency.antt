-- ===== src/Consistency.antt =====
-- What is true of every socket between two calls of the library, and the rules to prove it with.
pub mod Alive
pub mod Bind
pub mod Connect
pub mod Peers
pub mod Store
pub mod Close
pub mod Options
pub mod Rules
pub mod Packets
pub mod Calls
pub mod Runs
use ip2unix.Base.{
  All, Bool, List, Option, [], arith, false, if_cases, if◌then◌else◌, is_some, none, some, true, ℕ,
  ◌≡◌,
}
use ip2unix.Effect.{>>=-Ensures, Effect, Ensures, value_of, weaken_Ensures, ◌>>=◌}
use ip2unix.Kernel.{Process}
use ip2unix.Base.Integer.{ℤ}
use ip2unix.Socket.Registry.Lifetime.{place}
use ip2unix.Socket.{Socket, State, World, on_process, on_self}

-- A socket that was not converted has no address, no connection, no peers and no path to unlink.
abbrev pub IsSound : Socket → Type 0
IsSound sock =
    sock.is_unix ≡ false
    → (sock.binding ≡ none)
      × (sock.connection ≡ none)
      × (sock.peermap ≡ [])
      × (sock.unlink_sockpath ≡ none)

abbrev pub IsConverted : Socket → Type 0
IsConverted sock = sock.is_unix ≡ true

-- A place of the store: a destroyed socket, or a sound one.
abbrev pub IsSoundCell : Option Socket → Type 0
IsSoundCell none = Unit
IsSoundCell (some sock) = IsSound sock

-- A pointer to a socket that is not destroyed.
abbrev pub IsAlive : List (Option Socket) → ℕ → Type 0
IsAlive sockets p = is_some (place sockets p) ≡ true

-- All sockets are sound, and each descriptor in the registry stands for one of them. The tactics do
-- not look into this: most calls leave both as they are.
unfoldable pub IsSoundStore : List (Option Socket) → List (ℤ × ℕ) → Type 0
IsSoundStore sockets registry =
    All IsSoundCell sockets × All (λ (e : ℤ × ℕ). IsAlive sockets e.1) registry

-- The same of a store that has the socket `this`.
unfoldable pub IsPlaced : List (Option Socket) → List (ℤ × ℕ) → ℕ → Type 0
unfolding IsSoundStore
IsPlaced sockets registry this = IsSoundStore sockets registry × IsAlive sockets this

module _ {S : Type 0} where
  abbrev pub IsConsistent : World S → Type 0
  IsConsistent w = IsSoundStore w.sockets w.registry

  -- `P` of the socket itself, in such a store.
  abbrev pub Holds : (Socket → Type 0) → State S → Type 0
  Holds P s = P s.self × IsPlaced s.world.sockets s.world.registry s.this

  abbrev pub Keeps : {A : Type 0} → (Socket → Type 0) → Effect (State S) A → Type 0
  Keeps P m = (s : State S) → Holds P s → Ensures (λ _ t. Holds P t) (m s)

  -- What a conversion leaves, by its result.
  abbrev pub Converted : Bool → State S → Type 0
  Converted ok t = Holds IsSound t × (ok ≡ true → Holds IsConverted t)

  pub converted_IsSound : (t : State S) → Holds IsConverted t → Holds IsSound t
  converted_IsSound t (u, c) = (λ n. ground arith, c)

  -- A method may be shown to keep more than it has to.
  pub converted_Ensures :
      {A : Type 0} (r : Option (A × State S))
      → Ensures (λ _ t. Holds IsConverted t) r
      → Ensures (λ _ t. Holds IsSound t) r
  converted_Ensures r =
      weaken_Ensures (λ _ t. Holds IsConverted t) (λ _ t. Holds IsSound t) r
        λ _ t. converted_IsSound t

  module _ (P : Socket → Type 0) where
    pub then_Keeps :
        {A B : Type 0} (m : Effect (State S) A) (f : A → Effect (State S) B)
        → Keeps P m
        → ((a : A) → Keeps P (f a))
        → Keeps P (m >>= f)
    then_Keeps m f h k s i =
        >>=-Ensures (λ _ t. Holds P t) (λ _ t. Holds P t) m f s (h s i) λ a t j. k a t j

    -- The same, where what follows depends on the state before.
    pub then_Ensures :
        {A B : Type 0} (m : Effect (State S) A) (f : A → Effect (State S) B) (s : State S)
        → Holds P s
        → Keeps P m
        → ((a : A) (t : State S) → Holds P t → Ensures (λ _ u. Holds P u) (f a t))
        → Ensures (λ _ u. Holds P u) ((m >>= f) s)
    then_Ensures m f s i h k = >>=-Ensures (λ _ t. Holds P t) (λ _ t. Holds P t) m f s (h s i) k

    pub on_process-Keeps : {A : Type 0} (m : Effect (Process S) A) → Keeps P (on_process m)
    on_process-Keeps {A = A} m s i = kept (m s.world.process)
      where
        kept :
            (r : Option (A × Process S))
            → Ensures
                (λ _ t. Holds P t)
                (elim (elim r as (λ _. Option (A × World S)) [
                  | none ↦ none
                  | some (a, p) ↦ some (a, record s.world { process = p })
                ]) [ none ↦ none | some (a, w) ↦ some (a, record s { world = w }) ])
        kept none = tt
        kept (some (a, p)) = i

    pub on_self-Keeps :
        (f : Socket → Socket) → ((sock : Socket) → P sock → P (f sock)) → Keeps P (on_self f)
    on_self-Keeps f h s i = (h s.self i.0, i.1)

    pub value_of-Keeps : {A : Type 0} (o : Option A) → Keeps P (value_of o)
    value_of-Keeps none s i = tt
    value_of-Keeps (some a) s i = i

    pub elim_Keeps :
        {A B : Type 0} (o : Option A) (m : Effect (State S) B) (f : A → Effect (State S) B)
        → Keeps P m
        → ((a : A) → Keeps P (f a))
        → Keeps P (elim o as (λ _. Effect (State S) B) [ none ↦ m | some a ↦ f a ])
    elim_Keeps none m f h k = h
    elim_Keeps (some a) m f h k = k a

    pub if_Keeps :
        {B : Type 0} (b : Bool) (m n : Effect (State S) B)
        → Keeps P m
        → Keeps P n
        → Keeps P (if b then m else n)
    if_Keeps {B = B} b m n h k =
        if_cases (λ (e : Effect (State S) B). Keeps P e) b m n (λ _. h) (λ _. k)
