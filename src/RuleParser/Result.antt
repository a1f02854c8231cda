-- ===== src/RuleParser/Result.antt =====
-- How a parsing function ends, and what it takes from outside this repository.
use ip2unix.Base.{Bool, Option, [], if◌then◌else◌, ◌==◌, ◌∷◌}
use ip2unix.Base.Text.{Bytes}
use ip2unix.Base.Integer.{ℤ}

-- `ret`: it returned. `throws`: an exception of the standard library left it; nothing catches it.
pub data Result {ℓ} (A : Type ℓ) : Type ℓ where
  ret : A → Result A
  throws : Result A

infixl 5 ◌>>=◌
abbrev pub ◌>>=◌ {ℓ κ} : {A : Type ℓ} {B : Type κ} → Result A → (A → Result B) → Result B
ret a >>= f = f a
throws >>= f = throws

-- libc's `inet_pton`, the generated table of errno names and the working directory.
pub record Environment : Type 0 where
  pub is_ipv4 : Bytes → Bool
  pub is_ipv6 : Bytes → Bool
  pub name2errno : Bytes → Option ℤ
  pub errno2name : ℤ → Bytes
  pub current_dir : Bytes

-- `c_str()`: a C function reads a string up to its first NUL.
unfoldable pub c_str : Bytes → Bytes
c_str [] = []
c_str (c ∷ s) = if c == 0 then [] else c ∷ c_str s
