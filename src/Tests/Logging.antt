-- ===== src/Tests/Logging.antt =====
-- Messages of the library, in a program that was launched with `-v` or without.
use ip2unix.Base.{Bool, List, [], false, none, refl, some, true, ℕ, ◌++◌, ◌+◌, ◌∷◌, ◌≡◌}
use ip2unix.Base.Text.{Bytes, codes}
use ip2unix.Base.Integer.{pos}
use ip2unix.Base.Decimal.{decimal, read_digits}
use ip2unix.Kernel.{Call, Kernel}
use ip2unix.Logging.{
  Log, Place, atoi, create, destroy, heading, info, join_comma, just_filename, level, rfind,
  sysdlvl, trace_call, verbosity_of, warning,
}
use ip2unix.Logging.Levels.{Message, transcript}
use ip2unix.Wrapper.{Launch, Settings}
use ip2unix.Tests.Kernels.{kernel, process}
use ip2unix.Tests.Wrapper.{launch, settings}

abbrev in_main : Place
in_main = record { path = codes "../src/preload.cc"; line = 30; fun = codes "init_rules" }

abbrev not_a_socket : Call ℕ Bool
not_a_socket os = (false, some (pos 9), os + 1)

abbrev prints : Bytes → Call ℕ (Unit {0})
prints line os = (tt, none, os + 1)

names_the_file : just_filename (codes "../src/preload.cc") ≡ codes "preload.cc"
unfolding just_filename rfind
names_the_file = refl

joins : join_comma (some []) (codes "a") (codes "b" ∷ codes "c" ∷ []) ≡ some (codes "a, b, c")
unfolding join_comma
joins = refl

reads_nine : verbosity_of (some (codes "9x")) ≡ some 9
unfolding verbosity_of atoi read_digits
reads_nine = refl

abbrev silent : Log ℕ
silent = record { process = process; current_verbosity = none; is_systemd = false; printed = [] }

abbrev said : List Message
said =
    record { verbosity = warning; place = in_main; val = codes "one" }
    ∷ record { verbosity = info; place = in_main; val = codes "two" }
    ∷ []

prints_one : transcript false 77 2 said ≡ codes "ip2unix WARNING: one" ++ 10 ∷ []
unfolding transcript heading level
prints_one = refl

prints_place :
    transcript true 77 4 said
    ≡ codes "<4>ip2unix:preload.cc:30:init_rules one"
      ++ 10 ∷ codes "<6>ip2unix:preload.cc:30:init_rules two"
      ++ 10 ∷ []
unfolding transcript heading level sysdlvl decimal just_filename rfind
prints_place = refl

traces :
    trace_call kernel not_a_socket prints 77 in_main
      (codes "close")
      (codes "5")
      []
      (record silent { current_verbosity = some 5 })
    ≡ some (
      tt,
      record silent {
        process = record process { os = 1 };
        current_verbosity = some 5;
        printed = codes "ip2unix[77] preload.cc:30:init_rules TRACE: close(5)" ++ 10 ∷ [];
      },
    )
unfolding trace_call create destroy heading level decimal just_filename rfind join_comma
traces = refl

-- `-vv`.
abbrev loud : Settings
loud = record settings { verbosity = 2 }

abbrev loud_launch : Launch
loud_launch = record launch { verbosity_text = some (codes "2") }

-- The kernel with the environment that the program is launched in.
abbrev loud_kernel : Kernel ℕ
loud_kernel = record kernel { getenv = λ name os. loud_launch.verbosity_text }
