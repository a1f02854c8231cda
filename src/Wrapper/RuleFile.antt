-- ===== src/Wrapper/RuleFile.antt =====
-- Files of rules: one on each line.
use ip2unix.Base.{
  All, List, Option, [], ap, append-nil, append_assoc, arith, false, map, none, refl, some, sym,
  ◌++◌, ◌∙◌, ◌∷◌, ◌≡◌, ◌≢◌,
}
use ip2unix.Base.Text.{Bytes}
use ip2unix.Serial.Scalar.{is_space}
use ip2unix.RuleParser.Result.{Environment}
use ip2unix.RuleParser.Yaml.{is_yaml_rule_file}
use ip2unix.Wrapper.{
  Host, Opt, Settings, exit_failure, exits, file, lines_of, push_rule_args, read_rule_file,
  rule_arg, rule_lines_of, scan_options,
}

-- A text of lines, each with its end.
abbrev pub joined : List Bytes → Bytes
joined [] = []
joined (line ∷ lines) = line ++ 10 ∷ joined lines

abbrev pub NoNewline : Bytes → Type 0
NoNewline = All λ c. c ≢ 10

-- A rule that is written as it is on a line of its own.
abbrev pub IsLine : Bytes → Type 0
IsLine [] = ⊥
IsLine (c ∷ arg) = (is_space c ≡ false) × (c ≢ b'#') × NoNewline (c ∷ arg)

lines_of-line :
    (line rest : Bytes) → NoNewline line → lines_of (line ++ 10 ∷ rest) ≡ line ∷ lines_of rest
unfolding lines_of
lines_of-line [] rest h = refl
lines_of-line (c ∷ line) rest h = ground (arith, lines_of-line line rest h.1)

rule_lines_of-joined :
    (args : List Bytes) → All IsLine args → rule_lines_of (lines_of (joined args)) ≡ args
unfolding lines_of rule_lines_of
rule_lines_of-joined [] h = refl
rule_lines_of-joined ([] ∷ args) h = absurd h.0
rule_lines_of-joined ((c ∷ arg) ∷ args) h =
    ground (arith, lines_of-line (c ∷ arg) (joined args) h.0.2, rule_lines_of-joined args h.1)

module _ (env : Environment) (host : Host) where
  scan_options-rules :
      (args : List Bytes) (s : Settings) (opts : List Opt)
      → scan_options env host s (map rule_arg args ++ opts)
        ≡ scan_options env host (record s { rule_args = s.rule_args ++ args }) opts
  unfolding scan_options
  scan_options-rules [] s opts =
      ap (λ (xs : List Bytes). scan_options env host (record s { rule_args = xs }) opts)
        (sym (append-nil s.rule_args))
  scan_options-rules (arg ∷ args) s opts =
      scan_options-rules args (record s { rule_args = s.rule_args ++ arg ∷ [] }) opts
      ∙ ap (λ (xs : List Bytes). scan_options env host (record s { rule_args = xs }) opts)
          (append_assoc s.rule_args (arg ∷ []) args)

  read_rule_file-joined :
      (args : List Bytes) (filename : Bytes) (s : Settings)
      → is_yaml_rule_file host.yaml (host.load_file filename) ≡ false
      → host.open_file filename ≡ some (record { text = joined args; is_bad = false })
      → All IsLine args
      → read_rule_file env host s filename
        ≡ some (record s { rulefile = none; rule_args = s.rule_args ++ args })
  unfolding read_rule_file push_rule_args
  read_rule_file-joined args filename s y o h = rw (y, o, rule_lines_of-joined args h) refl

  -- A file with one rule on each line does what the same rules do as `-r` options, unless YAML rules
  -- were named before.
  pub scan_options-file :
      (args : List Bytes) (filename : Bytes) (s : Settings) (opts : List Opt)
      → is_yaml_rule_file host.yaml (host.load_file filename) ≡ false
      → host.open_file filename ≡ some (record { text = joined args; is_bad = false })
      → All IsLine args
      → s.rulefile ≡ none
      → scan_options env host s (file filename ∷ opts)
        ≡ scan_options env host s (map rule_arg args ++ opts)
  unfolding scan_options
  scan_options-file args filename s opts y o h n =
      ap
        (λ (found : Option Settings). elim found [
          | none ↦ exits exit_failure
          | some s' ↦ scan_options env host s' opts
        ])
        (read_rule_file-joined args filename s y o h)
      ∙ ap
          (λ (f : Option Bytes).
            scan_options env host (record s { rulefile = f; rule_args = s.rule_args ++ args }) opts)
          (sym n)
      ∙ sym (scan_options-rules args s opts)
