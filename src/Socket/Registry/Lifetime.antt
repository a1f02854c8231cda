-- ===== src/Socket/Registry/Lifetime.antt =====
-- How long a socket lives.
use ip2unix.Base.{
  Bool, List, Option, [], ap, arith, false, if◌then◌else◌, none, refl, some, suc, true, zero, ℕ,
  ◌+◌, ◌∙◌, ◌∷◌, ◌≡◌,
}
use ip2unix.Base.Integer.{ℤ}
use ip2unix.Effect.{>>=-Ensures, Ensures, any_Ensures, pure, ◌>>=◌}
use ip2unix.Kernel.{Kernel, Process}
use ip2unix.Socket.{Socket}
use ip2unix.Socket.Close.{destroy}
use ip2unix.Socket.Registry.{keep_or_destroy, referenced, sweep}

-- The socket at a pointer, and none where there was none or it is destroyed.
abbrev pub place : List (Option Socket) → ℕ → Option Socket
place [] k = none
place (cell ∷ cells) zero = cell
place (cell ∷ cells) (suc k) = place cells k

module _ {S : Type 0} (kernel : Kernel S) where
  -- What the sweep leaves of the sockets, where the first has the pointer `n`.
  abbrev pub Swept : List (ℤ × ℕ) → ℕ → List (Option Socket) → List (Option Socket) → Type 0
  Swept registry n sockets cells =
      (k m : ℕ)
      → m ≡ n + k
      → place cells k ≡ (if referenced registry m then place sockets k else none)

  keep_or_destroy-Kept :
      (held : Bool) (sock : Socket) (p : Process S)
      → Ensures
          (λ cell _. cell ≡ (if held then some sock else none))
          (keep_or_destroy kernel held sock p)
  keep_or_destroy-Kept true sock p = refl
  keep_or_destroy-Kept false sock p =
      >>=-Ensures (λ _ _. Unit {0}) (λ (cell : Option Socket) (_ : Process S). cell ≡ none)
        (destroy kernel sock) (λ _. pure none) p (any_Ensures (destroy kernel sock p)) λ _ _ _. refl

  Swept-cons :
      (registry : List (ℤ × ℕ)) (n : ℕ) (cell kept : Option Socket)
      (cells rest : List (Option Socket))
      → kept ≡ (if referenced registry n then cell else none)
      → Swept registry (suc n) cells rest
      → Swept registry n (cell ∷ cells) (kept ∷ rest)
  Swept-cons registry n cell kept cells rest h r zero m e =
      h ∙ ap (λ (i : ℕ). if referenced registry i then cell else none) (omega arith)
  Swept-cons registry n cell kept cells rest h r (suc k) m e = r k m (omega arith)

  pub sweep-Swept :
      (registry : List (ℤ × ℕ)) (n : ℕ) (sockets : List (Option Socket)) (p : Process S)
      → Ensures
          (λ (cells : List (Option Socket)) (_ : Process S). Swept registry n sockets cells)
          (sweep kernel registry n sockets p)
  unfolding sweep
  sweep-Swept registry n [] p = λ k m e. ground arith
  sweep-Swept registry n (none ∷ cells) p =
      >>=-Ensures (λ rest _. Swept registry (suc n) cells rest)
        (λ cells' _. Swept registry n (none ∷ cells) cells') (sweep kernel registry (suc n) cells)
        (λ rest. pure (none ∷ rest)) p (sweep-Swept registry (suc n) cells p)
        λ rest _ d. Swept-cons registry n none none cells rest (ground arith) d
  sweep-Swept registry n (some sock ∷ cells) p =
      >>=-Ensures (λ cell _. cell ≡ (if referenced registry n then some sock else none))
        (λ cells' _. Swept registry n (some sock ∷ cells) cells')
        (keep_or_destroy kernel (referenced registry n) sock)
        (λ cell. sweep kernel registry (suc n) cells >>= λ rest. pure (cell ∷ rest)) p
        (keep_or_destroy-Kept (referenced registry n) sock p)
        λ kept q h.
          >>=-Ensures (λ rest _. Swept registry (suc n) cells rest)
            (λ cells' _. Swept registry n (some sock ∷ cells) cells')
            (sweep kernel registry (suc n) cells) (λ rest. pure (kept ∷ rest)) q
            (sweep-Swept registry (suc n) cells q)
            λ rest _ d. Swept-cons registry n (some sock) kept cells rest h d
