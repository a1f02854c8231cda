-- ===== src/Consistency/Alive.antt =====
-- What keeps pointers alive.
use mathlib.Core.Path.{subst}
use ip2unix.Base.{
  All, All-append, All-both, All-mono, List, Option, [], ap, arith, get_elem?, is_some, length,
  none, refl, some, suc, true, zero, ℕ, ◌++◌, ◌∷◌, ◌≡◌,
}
use ip2unix.Base.Integer.{int_eq, ℤ}
use ip2unix.Base.Dict.{erase, find, put}
use ip2unix.Kernel.{Kernel}
use ip2unix.Socket.{Socket, World}
use ip2unix.Socket.Close.{at_pointer, put_socket}
use ip2unix.Socket.Registry.{referenced}
use ip2unix.Socket.Registry.Lifetime.{Swept, place}
use ip2unix.Consistency.{IsAlive, IsPlaced, IsSound, IsSoundCell, IsSoundStore}

-- What a descriptor stands for is alive.
abbrev pub EntryAlive : List (Option Socket) → ℤ × ℕ → Type 0
EntryAlive sockets e = IsAlive sockets e.1

pub append-IsAlive :
    (sockets : List (Option Socket)) (cell : Option Socket) (p : ℕ)
    → IsAlive sockets p
    → IsAlive (sockets ++ cell ∷ []) p
append-IsAlive [] cell p a = cc
append-IsAlive (x ∷ sockets) cell zero a = a
append-IsAlive (x ∷ sockets) cell (suc p) a = append-IsAlive sockets cell p a

pub last-IsAlive :
    (sockets : List (Option Socket)) (sock : Socket)
    → IsAlive (sockets ++ some sock ∷ []) (length sockets)
last-IsAlive [] sock = refl
last-IsAlive (x ∷ sockets) sock = last-IsAlive sockets sock

pub erase-EntryAlive :
    (sockets : List (Option Socket)) (registry : List (ℤ × ℕ)) (fd : ℤ)
    → All (EntryAlive sockets) registry
    → All (EntryAlive sockets) (erase int_eq registry fd)
unfolding erase
erase-EntryAlive sockets [] fd h = tt
erase-EntryAlive sockets ((k, p) ∷ registry) fd h =
    ground (arith, erase-EntryAlive sockets registry fd h.1)

pub put-EntryAlive :
    (sockets : List (Option Socket)) (registry : List (ℤ × ℕ)) (fd : ℤ) (p : ℕ)
    → All (EntryAlive sockets) registry
    → IsAlive sockets p
    → All (EntryAlive sockets) (put int_eq registry fd p)
unfolding put
put-EntryAlive sockets registry fd p h a = (a, erase-EntryAlive sockets registry fd h)

pub find-EntryAlive :
    (sockets : List (Option Socket)) (registry : List (ℤ × ℕ)) (fd : ℤ) (p : ℕ)
    → All (EntryAlive sockets) registry
    → find int_eq registry fd ≡ some p
    → IsAlive sockets p
unfolding find
find-EntryAlive sockets [] fd p h e = cc
find-EntryAlive sockets ((k, q) ∷ registry) fd p h e =
    ground (arith, find-EntryAlive sockets registry fd p h.1)

-- Every descriptor of the registry keeps its socket.
pub referenced-All :
    (registry : List (ℤ × ℕ)) → All (λ (e : ℤ × ℕ). referenced registry e.1 ≡ true) registry
unfolding referenced
referenced-All [] = tt
referenced-All ((fd, p) ∷ registry) = (
  ground arith,
  All-mono (λ (e : ℤ × ℕ). referenced registry e.1 ≡ true)
      (λ (e : ℤ × ℕ). referenced ((fd, p) ∷ registry) e.1 ≡ true) (λ e r. ground arith) registry
      (referenced-All registry),
)

module _ {S : Type 0} (kernel : Kernel S) where
  pub put_socket-IsAlive :
      (sockets : List (Option Socket)) (sock : Socket) (p q : ℕ)
      → IsAlive sockets q
      → IsAlive (put_socket kernel sockets p (some sock)) q
  put_socket-IsAlive [] sock p q a = a
  put_socket-IsAlive (x ∷ sockets) sock zero zero a = refl
  put_socket-IsAlive (x ∷ sockets) sock zero (suc q) a = a
  put_socket-IsAlive (x ∷ sockets) sock (suc p) zero a = a
  put_socket-IsAlive (x ∷ sockets) sock (suc p) (suc q) a = put_socket-IsAlive sockets sock p q a

  pub at_pointer-place : (w : World S) (p : ℕ) → at_pointer kernel w p ≡ place w.sockets p
  unfolding at_pointer
  at_pointer-place w p = same w.sockets p
    where
      same :
          (sockets : List (Option Socket)) (k : ℕ)
          → elim (get_elem? sockets k) as (λ _. Option Socket) [ none ↦ none | some cell ↦ cell ]
            ≡ place sockets k
      same [] k = refl
      same (x ∷ sockets) zero = refl
      same (x ∷ sockets) (suc k) = same sockets k

-- What the calls do to a sound store.
pub append-IsSoundStore :
    (sockets : List (Option Socket)) (registry : List (ℤ × ℕ)) (sock : Socket) (fd : ℤ)
    → IsSound sock
    → IsSoundStore sockets registry
    → IsSoundStore (sockets ++ some sock ∷ []) (put int_eq registry fd (length sockets))
unfolding IsSoundStore
append-IsSoundStore sockets registry sock fd h (c, a) = (
  All-append IsSoundCell sockets (some sock ∷ []) c (h, tt),
  put-EntryAlive (sockets ++ some sock ∷ []) registry fd (length sockets)
      (All-mono (EntryAlive sockets) (EntryAlive (sockets ++ some sock ∷ []))
        (λ e. append-IsAlive sockets (some sock) e.1) registry a)
      (last-IsAlive sockets sock),
)

pub append-IsPlaced :
    (sockets : List (Option Socket)) (registry : List (ℤ × ℕ)) (sock : Socket) (fd : ℤ) (this : ℕ)
    → IsSound sock
    → IsPlaced sockets registry this
    → IsPlaced (sockets ++ some sock ∷ []) (put int_eq registry fd (length sockets)) this
unfolding IsPlaced
append-IsPlaced sockets registry sock fd this h (i, l) =
    (append-IsSoundStore sockets registry sock fd h i, append-IsAlive sockets (some sock) this l)

module _ (sockets : List (Option Socket)) (registry : List (ℤ × ℕ)) (fd : ℤ) (this : ℕ)
    (placed : IsPlaced sockets registry this) where
  pub put-IsPlaced : IsPlaced sockets (put int_eq registry fd this) this
  unfolding IsPlaced IsSoundStore
  put-IsPlaced =
      ((placed.0.0, put-EntryAlive sockets registry fd this placed.0.1 placed.1), placed.1)

  pub erase-IsPlaced : IsPlaced sockets (erase int_eq registry fd) this
  unfolding IsPlaced IsSoundStore
  erase-IsPlaced = ((placed.0.0, erase-EntryAlive sockets registry fd placed.0.1), placed.1)

pub sound_cells :
    (sockets : List (Option Socket)) (registry : List (ℤ × ℕ))
    → IsSoundStore sockets registry
    → All IsSoundCell sockets
unfolding IsSoundStore
sound_cells sockets registry c = c.0

cell_at :
    (sockets : List (Option Socket)) (p : ℕ)
    → All IsSoundCell sockets
    → IsSoundCell (place sockets p)
cell_at [] p c = tt
cell_at (cell ∷ sockets) zero c = c.0
cell_at (cell ∷ sockets) (suc p) c = cell_at sockets p c.1

-- The socket at a pointer is in such a store.
pub pointer-Holds :
    (sockets : List (Option Socket)) (registry : List (ℤ × ℕ)) (p : ℕ) (sock : Socket)
    → place sockets p ≡ some sock
    → IsSoundStore sockets registry
    → IsSound sock × IsPlaced sockets registry p
unfolding IsPlaced IsSoundStore
pointer-Holds sockets registry p sock e c =
    (subst IsSoundCell e (cell_at sockets p c.0), (c, ap is_some e))

module _ {S : Type 0} (kernel : Kernel S) where
  cells_put :
      (sockets : List (Option Socket)) (p : ℕ) (cell : Option Socket)
      → IsSoundCell cell
      → All IsSoundCell sockets
      → All IsSoundCell (put_socket kernel sockets p cell)
  cells_put [] p cell h c = tt
  cells_put (x ∷ sockets) zero cell h c = (h, c.1)
  cells_put (x ∷ sockets) (suc p) cell h c = (c.0, cells_put sockets p cell h c.1)

  pub put_socket-IsSoundStore :
      (sockets : List (Option Socket)) (registry : List (ℤ × ℕ)) (sock : Socket) (p this : ℕ)
      → IsSound sock
      → IsPlaced sockets registry this
      → IsSoundStore (put_socket kernel sockets p (some sock)) registry
  unfolding IsPlaced IsSoundStore
  put_socket-IsSoundStore sockets registry sock p this h (c, a) = (
    cells_put sockets p (some sock) h c.0,
    All-mono (EntryAlive sockets) (EntryAlive (put_socket kernel sockets p (some sock)))
        (λ e. put_socket-IsAlive kernel sockets sock p e.1) registry c.1,
  )

  -- The sweep destroys no socket that a descriptor stands for.
  pub Swept-IsSoundStore :
      (sockets cells : List (Option Socket)) (registry : List (ℤ × ℕ))
      → All IsSoundCell cells
      → Swept kernel registry 0 sockets cells
      → IsSoundStore sockets registry
      → IsSoundStore cells registry
  unfolding IsSoundStore
  Swept-IsSoundStore sockets cells registry h swept c = (
    h,
    All-both (λ (e : ℤ × ℕ). referenced registry e.1 ≡ true) (EntryAlive sockets) (EntryAlive cells)
        (λ e r a. rw (swept e.1 e.1 (omega arith), r) a) registry (referenced-All registry) c.1,
  )
