-- ===== src/RealCalls/Cache.antt =====
-- The table of function pointers makes no difference to what is called.
use ip2unix.Base.{List, Option, [], ap, arith, none, refl, some, ℕ, ◌∙◌, ◌∷◌, ◌≡◌}
use ip2unix.Base.Text.{Bytes, bytes_eq, bytes_eq_iff}
use ip2unix.Base.Dict.{find, find-put, put}
use ip2unix.Effect.{Effect, modify, pure, value_of, ◌>>=◌, ◌>>◌}
use ip2unix.RealCalls.{Handle, Linker, Symbols, apply, create, load, open_library, resolve}

module _ {S : Type 0} (linker : Linker S) where
  -- The loop opens the same library for each name of its list.
  create_any_path : (p q : Bytes) (os : S) → create linker (some p) os ≡ create linker (some q) os
  unfolding create open_library
  create_any_path p q os = refl

  -- After `DlsymHandle()`, before the first call.
  abbrev pub opened : Option Bytes → S → Symbols S
  opened libc_path os =
      let (handle, os') = create linker libc_path os in
      record { os = os'; handle = handle; fptrs = [] }

  module _ (symbol : Handle → Bytes → Option ℕ) where
    -- `dlsym` depends on the handle and the name alone, and changes nothing that a program sees.
    abbrev pub IsLookup : Type 0
    IsLookup = (h : Handle) (name : Bytes) (os : S) → linker.dlsym h name os ≡ (symbol h name, os)

    -- The table has what `dlsym` finds.
    abbrev IsCached : Symbols S → Type 0
    IsCached r =
        (name : Bytes) (fptr : ℕ)
        → find bytes_eq r.fptrs name ≡ some fptr
        → symbol r.handle name ≡ some fptr

    abbrev Resolves : Bytes → Symbols S → Option (ℕ × Symbols S) → Type 0
    Resolves name r none = symbol r.handle name ≡ none
    Resolves name r (some (fptr, t)) =
        (symbol r.handle name ≡ some fptr) × (t.handle ≡ r.handle) × (t.os ≡ r.os) × IsCached t

    load-Resolves :
        IsLookup
        → (name : Bytes) (r : Symbols S) → IsCached r
        → Resolves name r (load linker name r)
    unfolding load
    load-Resolves lookup name r c =
        rw (lookup r.handle name r.os) (at_symbol (symbol r.handle name) refl)
      where
        at_symbol :
            (found : Option ℕ)
            → symbol r.handle name ≡ found
            → Resolves name r (
                (value_of found >>= λ fptr.
                modify (λ (t : Symbols S). record t { fptrs = put bytes_eq t.fptrs name fptr })
                >> pure fptr)
                  r)
        at_symbol none e = e
        at_symbol (some fptr) e = (
          e,
          refl,
          refl,
          λ other f g. ground (
            arith,
            find-put bytes_eq bytes_eq_iff r.fptrs name other fptr,
            bytes_eq_iff name other,
            c other f,
          ),
        )

    resolve-Resolves :
        IsLookup
        → (name : Bytes) (r : Symbols S) → IsCached r
        → Resolves name r (resolve linker name r)
    unfolding resolve
    resolve-Resolves lookup name r c = at_entry (find bytes_eq r.fptrs name) refl
      where
        at_entry :
            (found : Option ℕ)
            → find bytes_eq r.fptrs name ≡ found
            → Resolves name r (
                (elim found as (λ _. Effect (Symbols S) ℕ) [
                  | none ↦ load linker name
                  | some fptr ↦ pure fptr
                ])
                  r)
        at_entry none e = load-Resolves lookup name r c
        at_entry (some fptr) e = (c name fptr e, refl, refl, c)

    module _ {A : Type 0} where
      -- One call after another, by the names of the functions.
      abbrev pub apply_all : List (Bytes × (ℕ → S → A × S)) → Effect (Symbols S) (List A)
      apply_all [] = pure []
      apply_all ((name, function) ∷ calls) =
          apply linker name function >>= λ a. apply_all calls >>= λ as'. pure (a ∷ as')

      -- The same with no table: each call asks for its symbol.
      abbrev pub direct : Handle → List (Bytes × (ℕ → S → A × S)) → Effect S (List A)
      direct h [] = pure []
      direct h ((name, function) ∷ calls) = value_of (symbol h name) >>= λ fptr.
          (λ os. some (function fptr os)) >>= λ a. direct h calls >>= λ as'. pure (a ∷ as')

      abbrev pub without_table : Option (List A × Symbols S) → Option (List A × S)
      without_table none = none
      without_table (some (as', r)) = some (as', r.os)

      abbrev headed : A → Option (List A × S) → Option (List A × S)
      headed a none = none
      headed a (some (as', os)) = some (a ∷ as', os)

      consed :
          (a : A) (o : Option (List A × Symbols S))
          → without_table (elim o as (λ _. Option (List A × Symbols S)) [
            | none ↦ none
            | some (as', t) ↦ some (a ∷ as', t)
          ])
            ≡ headed a (without_table o)
      consed a none = refl
      consed a (some (as', t)) = refl

      abbrev Applies : Bytes → (ℕ → S → A × S) → Symbols S → Option (A × Symbols S) → Type 0
      Applies name function r none = symbol r.handle name ≡ none
      Applies name function r (some (a, t)) =
          (fptr : ℕ) × (symbol r.handle name ≡ some fptr)
          × ((a, t.os) ≡ function fptr r.os)
          × (t.handle ≡ r.handle)
          × IsCached t

      apply-Applies :
          IsLookup
          → (name : Bytes) (function : ℕ → S → A × S) (r : Symbols S) → IsCached r
          → Applies name function r (apply linker name function r)
      unfolding apply
      apply-Applies lookup name function r c =
          at_pointer (resolve linker name r) (resolve-Resolves lookup name r c)
        where
          at_pointer :
              (o : Option (ℕ × Symbols S))
              → Resolves name r o
              → Applies name function r (elim o as (λ _. Option (A × Symbols S)) [
                | none ↦ none
                | some (fptr, t) ↦
                    some ((function fptr t.os).0, record t { os = (function fptr t.os).1 })
              ])
          at_pointer none e = e
          at_pointer (some (fptr, t)) (e, h, s, d) = (fptr, e, ap (function fptr) s, h, d)

      apply_all-IsCached :
          IsLookup
          → (calls : List (Bytes × (ℕ → S → A × S))) (r : Symbols S) → IsCached r
          → without_table (apply_all calls r) ≡ direct r.handle calls r.os
      apply_all-IsCached lookup [] r c = refl
      apply_all-IsCached lookup ((name, function) ∷ calls) r c =
          at_result (apply linker name function r) (apply-Applies lookup name function r c)
            (apply_all-IsCached lookup calls)
        where
          at_result :
              (o : Option (A × Symbols S))
              → Applies name function r o
              → ((t : Symbols S)
                  → IsCached t
                  → without_table (apply_all calls t) ≡ direct t.handle calls t.os)
              → without_table (elim o as (λ _. Option (List A × Symbols S)) [
                | none ↦ none
                | some (a, t) ↦ (apply_all calls >>= λ as'. pure (a ∷ as')) t
              ])
                ≡ direct r.handle ((name, function) ∷ calls) r.os
          at_result none e ih = rw e refl
          at_result (some (a, t)) (fptr, e, f, h, d) ih =
              consed a (apply_all calls t)
              ∙ ap (headed a) (ih t d ∙ ap (λ handle. direct handle calls t.os) h)
              ∙ rw (e, ← f) refl

      -- If `dlsym` finds for a name the same symbol at all times and changes nothing else, then a
      -- sequence of calls through the table returns what it returns where each call asks for its
      -- symbol, in the same state of the system, and ends the process in the same cases.
      pub apply_all-direct :
          IsLookup
          → (libc_path : Option Bytes) (os : S) (calls : List (Bytes × (ℕ → S → A × S)))
          → without_table (apply_all calls (opened libc_path os))
            ≡ direct (create linker libc_path os).0 calls (create linker libc_path os).1
      unfolding find
      apply_all-direct lookup libc_path os calls =
          apply_all-IsCached lookup calls (opened libc_path os) (λ name fptr e. cc)
