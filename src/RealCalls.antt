-- ===== src/RealCalls.antt =====
-- src/realcalls.hh and realcalls.cc: the functions of libc behind the ones that the library puts in
-- their place. The mutex makes a lookup one step; a function pointer is a number.
pub mod Cache
use ip2unix.Base.{List, Option, [], none, some, ℕ, ◌∷◌}
use ip2unix.Base.Text.{Bytes, bytes_eq, codes}
use ip2unix.Base.Dict.{find, put}
use ip2unix.Effect.{Effect, gets, modify, pure, value_of, ◌>>=◌, ◌>>◌}

pub data Handle : Type 0 where
  rtld_next : Handle
  library : ℕ → Handle

-- `dlopen`, `dlsym` and `dlclose`; `none` is a null pointer.
pub record Linker (S : Type 0) : Type 0 where
  pub dlopen : Bytes → S → Option ℕ × S
  pub dlsym : Handle → Bytes → S → Option ℕ × S
  pub dlclose : ℕ → S → S

-- `dlsym_handle`, and the `fptr` of each wrapper by the name of its function.
pub record Symbols (S : Type 0) : Type 0 where
  pub os : S
  pub handle : Handle
  pub fptrs : List (Bytes × ℕ)

module _ {S : Type 0} (linker : Linker S) where
  -- The loop of `DlsymHandle()`.
  unfoldable pub open_library : List Bytes → S → Handle × S
  open_library [] os = (rtld_next, os)
  open_library (libname ∷ libnames) os =
      let (handle, os') = linker.dlopen (codes "libc.so.6") os in
      elim handle [ some h ↦ (library h, os') | none ↦ open_library libnames os' ]

  -- `DlsymHandle()`, with `LIBC_PATH` if the build has it.
  unfoldable pub create : Option Bytes → S → Handle × S
  unfolding open_library
  create none os = open_library (codes "libc.so.6" ∷ []) os
  create (some libc_path) os = open_library (libc_path ∷ codes "libc.so.6" ∷ []) os

  -- `~DlsymHandle()`.
  unfoldable pub destroy : Handle → S → S
  destroy rtld_next os = os
  destroy (library h) os = linker.dlclose h os

  -- The block under `if (this->fptr == nullptr)`. Without the symbol, the process ends.
  unfoldable pub load : Bytes → Effect (Symbols S) ℕ
  unfolding put bytes_eq
  load fname = do
    result ← λ (r : Symbols S).
        let (found, os') = linker.dlsym r.handle fname r.os in some (found, record r { os = os' })
    fptr ← value_of result
    modify λ (r : Symbols S). record r { fptrs = put bytes_eq r.fptrs fname fptr }
    pure fptr

  -- `operator()`, up to the call of the function.
  unfoldable pub resolve : Bytes → Effect (Symbols S) ℕ
  unfolding load find bytes_eq
  resolve fname = do
    fptrs ← gets λ (r : Symbols S). r.fptrs
    elim (find bytes_eq fptrs fname) [ none ↦ load fname | some fptr ↦ pure fptr ]

  -- `operator()`.
  unfoldable pub apply : {A : Type 0} → Bytes → (ℕ → S → A × S) → Effect (Symbols S) A
  unfolding resolve
  apply fname function = do
    fptr ← resolve fname
    λ (r : Symbols S). let (a, os') = function fptr r.os in some (a, record r { os = os' })
