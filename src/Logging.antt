-- ===== src/Logging.antt =====
-- src/logging.cc and logging.hh: the messages of the library on the standard error output. What is
-- put into a message is the text that the stream makes of it.
pub mod Levels
use ip2unix.Base.{
  Bool, List, Option, [], drop, if◌then◌else◌, leb, ltb, none, some, ℕ, ◌++◌, ◌+◌, ◌==◌, ◌^◌, ◌∷◌,
}
use ip2unix.Base.Text.{Bytes, codes}
use ip2unix.Base.Decimal.{decimal, read_digits, starts_with_digit}
use ip2unix.Effect.{Effect, gets, modify, pure, value_of, ◌>>=◌, ◌>>◌}
use ip2unix.Kernel.{Call, Kernel, Process, call}

pub data Verbosity : Type 0 where
  fatal error warning info debug trace : Verbosity

-- `static_cast<int>`.
unfoldable pub level : Verbosity → ℕ
level fatal = 0
level error = 1
level warning = 2
level info = 3
level debug = 4
level trace = 5

-- `#level` in the macro `LOG`.
abbrev pub label : Verbosity → Bytes
label fatal = codes "FATAL"
label error = codes "ERROR"
label warning = codes "WARNING"
label info = codes "INFO"
label debug = codes "DEBUG"
label trace = codes "TRACE"

unfoldable pub sysdlvl : Verbosity → ℕ
sysdlvl fatal = 2
sysdlvl error = 3
sysdlvl warning = 4
sysdlvl info = 6
sysdlvl debug = 7
sysdlvl trace = 7

-- `rfind` of a character.
unfoldable pub rfind : ℕ → Bytes → Option ℕ
rfind c [] = none
rfind c (x ∷ xs) = elim (rfind c xs) [
  | some n ↦ some (n + 1)
  | none ↦ if x == c then some 0 else none
]

unfoldable pub just_filename : Bytes → Bytes
unfolding rfind
just_filename path = elim (rfind b'/' path) [ none ↦ path | some n ↦ drop (n + 1) path ]

-- Where a message comes from: `__FILE__`, `__LINE__` and `__func__`.
pub record Place : Type 0 where
  pub path : Bytes
  pub line : ℕ
  pub fun : Bytes

-- The static variables of the file, and what `std::cerr` was given.
pub record Log (S : Type 0) : Type 0 where
  pub process : Process S
  pub current_verbosity : Option ℕ
  pub is_systemd : Bool
  pub printed : Bytes

-- `atoi` of a text that begins with a digit. A number that is no `int` is undefined behaviour.
unfoldable pub atoi : Bytes → Option ℕ
unfolding read_digits
atoi text = let n = (read_digits 0 text).0 in if ltb n (2 ^ 31) then some n else none

unfoldable pub verbosity_of : Option Bytes → Option ℕ
unfolding atoi
verbosity_of none = some 0
verbosity_of (some env) = if starts_with_digit env then atoi env else some 0

-- `operator<<`, of a message that is dropped or not.
abbrev pub add : Option Bytes → Bytes → Option Bytes
add none val = none
add (some logbuf) val = some (logbuf ++ val)

unfoldable pub join_comma : Option Bytes → Bytes → List Bytes → Option Bytes
join_comma logbuf arg0 [] = add logbuf arg0
join_comma logbuf arg0 (arg1 ∷ rest) = join_comma (add (add logbuf arg0) (codes ", ")) arg1 rest

abbrev pub origin : Place → Bytes
origin place = just_filename place.path ++ b':' ∷ decimal place.line ++ b':' ∷ place.fun

-- What the constructor puts before the message, on a socket of the journal or elsewhere.
unfoldable pub heading : Bool → ℕ → ℕ → Verbosity → Place → Bytes
unfolding sysdlvl decimal just_filename
heading is_systemd pid current verbosity place =
    if is_systemd
    then b'<' ∷ decimal (sysdlvl verbosity)
      ++ codes ">ip2unix:"
      ++ (if leb 4 current then origin place else [])
      ++ b' ' ∷ []
    else codes "ip2unix"
      ++ (if leb 4 current then b'[' ∷ decimal pid ++ codes "] " ++ origin place else [])
      ++ b' ' ∷ label verbosity
      ++ codes ": "

-- `fstat(STDERR_FILENO, &st) == 0 && S_ISSOCK(st.st_mode)`, what `std::cerr` does to write a text,
-- which may set `errno`, and `getpid()`.
module _ {S : Type 0} (kernel : Kernel S) (stderr_is_socket : Call S Bool)
    (print : Bytes → Call S (Unit {0})) (pid : ℕ) where
  -- The block under `if (!current_verbosity)`.
  unfoldable pub configure : Effect (Log S) (Unit {0})
  unfolding verbosity_of
  configure log =
      (do
        current ←
            value_of (verbosity_of (kernel.getenv (codes "__IP2UNIX_VERBOSITY") log.process.os))
        modify λ (l : Log S). record l { current_verbosity = some current }
        let old_errno = log.process.errno
        is_systemd ← λ (l : Log S). elim (call stderr_is_socket l.process) [
          | none ↦ none
          | some (answer, p) ↦ some (answer, record l { process = p })
        ]
        modify λ (l : Log S). record l {
          is_systemd = is_systemd;
          process = record (l.process) { errno = old_errno };
        })
        log

  -- `Logger()`, with the message that it begins.
  unfoldable pub create : Verbosity → Place → Effect (Log S) (Option Bytes)
  unfolding configure heading level
  create verbosity place = do
    known ← gets λ (l : Log S). l.current_verbosity
    elim known [ none ↦ configure | some current ↦ pure tt ]
    current ← λ (l : Log S). value_of l.current_verbosity l
    gets λ (l : Log S).
        if leb (level verbosity) current
        then some (heading l.is_systemd pid current verbosity place)
        else none

  -- `~Logger()`; the line goes to `std::cerr` as a whole.
  unfoldable pub destroy : Option Bytes → Effect (Log S) (Unit {0})
  destroy none l = some (tt, l)
  destroy (some logbuf) l =
      let line = logbuf ++ 10 ∷ [] in
      elim (call (print line) l.process) [
        | none ↦ none
        | some (a, p) ↦ some (tt, record l { process = p; printed = l.printed ++ line })
      ]

  -- `LOG(level) << val;`
  unfoldable pub message : Verbosity → Place → Bytes → Effect (Log S) (Unit {0})
  unfolding create destroy
  message verbosity place val = do logbuf ← create verbosity place; destroy (add logbuf val)

  unfoldable pub trace_call : Place → Bytes → Bytes → List Bytes → Effect (Log S) (Unit {0})
  unfolding create destroy join_comma
  trace_call place fname arg0 args = do
    logbuf ← create trace place
    destroy (add (join_comma (add logbuf (fname ++ b'(' ∷ [])) arg0 args) (b')' ∷ []))
