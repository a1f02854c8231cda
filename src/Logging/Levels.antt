-- ===== src/Logging/Levels.antt =====
-- Which messages reach the standard error output.
use mathlib.Core.Path.{subst}
use ip2unix.Base.{
  Bool, List, Option, [], ap, append-nil, append_assoc, arith, if◌then◌else◌, leb, ltb, none, refl,
  some, suc, sym, true, zero, ℕ, ◌++◌, ◌<◌, ◌^◌, ◌∙◌, ◌∷◌, ◌≡◌,
}
use ip2unix.Base.Text.{Bytes, codes}
use ip2unix.Base.Decimal.{
  decimal, decimal_starts, read_digits, read_digits-decimal, starts_with_digit,
}
use ip2unix.Effect.{>>=-Returns, Effect, Returns, pure, weaken_Returns, ◌>>◌}
use ip2unix.Kernel.{Call, Kernel}
use ip2unix.Logging.{
  Log, Place, Verbosity, atoi, configure, create, destroy, heading, level, message, verbosity_of,
}

-- What the macro `LOG` and the operators behind it are given.
pub record Message : Type 0 where
  pub verbosity : Verbosity
  pub place : Place
  pub val : Bytes

-- The lines of the messages up to a verbosity, in their order.
unfoldable pub transcript : Bool → ℕ → ℕ → List Message → Bytes
unfolding heading level
transcript is_systemd pid current [] = []
transcript is_systemd pid current (m ∷ messages) =
    let rest = transcript is_systemd pid current messages in
    if leb (level m.verbosity) current
    then (heading is_systemd pid current m.verbosity m.place ++ m.val) ++ 10 ∷ rest
    else rest

verbosity_of-decimal : (n : ℕ) → n < 2 ^ 31 → verbosity_of (some (decimal n)) ≡ some n
unfolding verbosity_of atoi
verbosity_of-decimal n h =
    let start =
      subst (λ t. starts_with_digit t ≡ true) (append-nil (decimal n)) (decimal_starts n []) in
    let digits =
      subst (λ t. read_digits 0 t ≡ (n, [])) (append-nil (decimal n))
        (read_digits-decimal n [] refl) in
    rw (start, digits) (ground arith)

-- The verbosity of a program that was launched with a number of options `-v`, where the environment
-- had one before.
unfoldable pub in_effect : ℕ → Option Bytes → Option ℕ
unfolding verbosity_of
in_effect zero inherited = verbosity_of inherited
in_effect (suc n) inherited = some (suc n)

pub verbosity_of-in_effect :
    (n : ℕ) (inherited : Option Bytes)
    → n < 2 ^ 31
    → verbosity_of (if ltb 0 n then some (decimal n) else inherited) ≡ in_effect n inherited
unfolding in_effect
verbosity_of-in_effect zero inherited h = refl
verbosity_of-in_effect (suc n) inherited h =
    let positive : ltb 0 (suc n) ≡ true = ground arith in
    rw positive (verbosity_of-decimal (suc n) h)

transcript-∷ :
    (is_systemd : Bool) (pid n : ℕ) (m : Message) (messages : List Message)
    → transcript is_systemd pid n (m ∷ messages)
      ≡ transcript is_systemd pid n (m ∷ []) ++ transcript is_systemd pid n messages
unfolding transcript
transcript-∷ is_systemd pid n m messages = ground (
  arith,
  append_assoc (heading is_systemd pid n m.verbosity m.place ++ m.val) (10 ∷ [])
      (transcript is_systemd pid n messages),
)

module _ {S : Type 0} (kernel : Kernel S) (stderr_is_socket : Call S Bool)
    (print : Bytes → Call S (Unit {0})) (pid : ℕ) where
  -- `LOG` of a message.
  abbrev pub write : Message → Effect (Log S) (Unit {0})
  write m = message kernel stderr_is_socket print pid m.verbosity m.place m.val

  -- One statement after another.
  abbrev pub write_all : List Message → Effect (Log S) (Unit {0})
  write_all [] = pure tt
  write_all (m ∷ messages) = write m >> write_all messages

  abbrev configured : Log S → ℕ → Log S
  configured log n =
      let (answer, e, os') = stderr_is_socket log.process.os in
      record log {
        current_verbosity = some n;
        is_systemd = answer;
        process = record (log.process) { os = os' };
      }

  -- What was written, from `before` on.
  abbrev Wrote : Bool → ℕ → Bytes → List Message → Log S → Type 0
  Wrote is_systemd n before messages t =
      (t.current_verbosity ≡ some n)
      × (t.is_systemd ≡ is_systemd)
      × (t.printed ≡ before ++ transcript is_systemd pid n messages)

  write-Wrote :
      (m : Message) (log : Log S) (n : ℕ)
      → log.current_verbosity ≡ some n
      → Returns (λ _ t. Wrote log.is_systemd n log.printed (m ∷ []) t) (write m log)
  unfolding message create destroy transcript
  write-Wrote m log n e = rw e (ground (arith, append-nil log.printed))

  configure-configured :
      (log : Log S) (n : ℕ)
      → verbosity_of (kernel.getenv (codes "__IP2UNIX_VERBOSITY") log.process.os) ≡ some n
      → configure kernel stderr_is_socket print pid log ≡ some (tt, configured log n)
  unfolding configure
  configure-configured log n v = rw v refl

  write-configured :
      (m : Message) (log : Log S) (n : ℕ)
      → log.current_verbosity ≡ none
      → verbosity_of (kernel.getenv (codes "__IP2UNIX_VERBOSITY") log.process.os) ≡ some n
      → write m log ≡ write m (configured log n)
  unfolding message create
  write-configured m log n e v = ground (arith, e, configure-configured log n v)

  write_all-Wrote :
      (messages : List Message) (log : Log S) (n : ℕ)
      → log.current_verbosity ≡ some n
      → Returns (λ _ t. Wrote log.is_systemd n log.printed messages t) (write_all messages log)
  write_all-Wrote [] log n e = (e, refl, unfold transcript in sym (append-nil log.printed))
  write_all-Wrote (m ∷ messages) log n e =
      >>=-Returns (λ _ t. Wrote log.is_systemd n log.printed (m ∷ []) t)
        (λ _ t. Wrote log.is_systemd n log.printed (m ∷ messages) t) (write m)
        (λ _. write_all messages) log (write-Wrote m log n e)
        λ _ t w.
          weaken_Returns (λ _ u. Wrote t.is_systemd n t.printed messages u)
            (λ _ u. Wrote log.is_systemd n log.printed (m ∷ messages) u) (write_all messages t)
            (λ _ u v. joined u t w v) (write_all-Wrote messages t n w.0)
    where
      joined :
          (u t : Log S)
          → Wrote log.is_systemd n log.printed (m ∷ []) t
          → Wrote t.is_systemd n t.printed messages u
          → Wrote log.is_systemd n log.printed (m ∷ messages) u
      joined u t w v = (
        v.0,
        v.1 ∙ w.1,
        v.2
            ∙ ap (λ b. t.printed ++ transcript b pid n messages) w.1
            ∙ ap (λ text. text ++ transcript log.is_systemd pid n messages) w.2
            ∙ append_assoc log.printed (transcript log.is_systemd pid n (m ∷ []))
                (transcript log.is_systemd pid n messages)
            ∙ ap (λ text. log.printed ++ text) (sym (transcript-∷ log.is_systemd pid n m messages)),
      )

  -- The first message of a process settles the verbosity.
  pub write_all-transcript :
      (messages : List Message) (log : Log S) (n : ℕ)
      → log.current_verbosity ≡ none
      → verbosity_of (kernel.getenv (codes "__IP2UNIX_VERBOSITY") log.process.os) ≡ some n
      → Returns
          (λ _ (t : Log S).
            t.printed
            ≡ log.printed ++ transcript (stderr_is_socket log.process.os).0 pid n messages)
          (write_all messages log)
  write_all-transcript [] log n e v = unfold transcript in sym (append-nil log.printed)
  write_all-transcript (m ∷ messages) log n e v =
      let first =
        ap
          (λ r. elim r as (λ _. Option (Unit {0} × Log S)) [
            | none ↦ none
            | some (a, l) ↦ write_all messages l
          ])
          (write-configured m log n e v) in
      let c = configured log n in
      rw first (
        weaken_Returns (λ _ t. Wrote c.is_systemd n c.printed (m ∷ messages) t)
          (λ _ t. t.printed ≡ c.printed ++ transcript c.is_systemd pid n (m ∷ messages))
          (write_all (m ∷ messages) c) (λ _ t w. w.2) (write_all-Wrote (m ∷ messages) c n refl))
