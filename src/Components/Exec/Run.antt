-- ===== src/Components/Exec/Run.antt =====
-- Run of internal/components/exec/exec.go. The subprocess is a parameter: its argv, its environment and
-- its stdin give its stdout, or the error with which it ends or does not start.
use servitor.Prelude.{String, none, some, List, [], ◌∷◌, ◌⊎◌, inl, inr, str_eq, if◌then◌else◌, ◌<>◌}
use servitor.Value.{Value, null}
use servitor.Components.Singer.{Lines}
use servitor.Components.Exec.{redact_env}

abbrev pub Subprocess : Type 0
Subprocess = List String → List String → String → String ⊎ String

module _ (codec : Lines) where
  -- A nil input is no input.
  abbrev pub stdin_of : Value → String
  stdin_of null = ""
  stdin_of v = codec.encode v

  -- What is made of the stdout: redacted, it must be a JSON text.
  unfoldable pub read_output : List String → String → String ⊎ Value
  unfolding redact_env
  read_output env stdout =
      let out = redact_env env (codec.trim stdout) in
      if str_eq out ""
      then inl "exec: node produced no JSON output on stdout"
      else elim (codec.decode out) [
        | none ↦ inl "exec: node stdout is not valid JSON"
        | some v ↦ inr v
      ]

  unfoldable pub run_request : Subprocess → List String → List String → Value → String ⊎ Value
  unfolding read_output
  run_request process [] env input = inl "exec: empty command"
  run_request process (c ∷ argv) env input = elim (process (c ∷ argv) env (stdin_of input)) [
    | inl e ↦ inl ("exec: node failed: " <> e)
    | inr stdout ↦ read_output env stdout
  ]
