-- ===== src/Tests/Messages.antt =====
-- Examples of what the log prints, of the summary of a start and of the state directory.
use mathlib.Core.Option
use vibe_kata.Base.{◌≡◌, refl, true, false, none, some, [], ◌∷◌}
use vibe_kata.Base.Bytes.{bytes}
use vibe_kata.Log.{warn, initial}
use vibe_kata.Log.Output.{Clock, print_at, print_stderr_at}
use vibe_kata.Log.Notes.{print_explain_at}
use vibe_kata.Log.Plain.{strip}
use vibe_kata.Log.Colors.{terminal_same}
use vibe_kata.State.{get_state_dir}
use vibe_kata.Lifecycle.StateDir.{choose_state_dir}
use vibe_kata.Lifecycle.SameDir.{choose_state_dir_lem}
use vibe_kata.Oci.{Process}
use vibe_kata.Lifecycle.Summary.{args_read, command_text}
use vibe_kata.Lifecycle.CommandText.{shown, command_text_lem}
use vibe_kata.Tests.World.{env}

abbrev now : Clock
now = record { hour = 12; min = 5; sec = 9; nsec = 7000000 }

terminal_same_example :
    (Option.map strip
        (print_at env true now warn (some (bytes "src/main.c")) 42 (bytes "ab") initial).0
      ≡ (print_at env false now warn (some (bytes "src/main.c")) 42 (bytes "ab") initial).0)
    × (Option.map strip
          (print_stderr_at env true (some (bytes "src/main.c")) 42 (bytes "ab") initial).0
        ≡ (print_stderr_at env false (some (bytes "src/main.c")) 42 (bytes "ab") initial).0)
    × (Option.map strip
          (print_explain_at env true
            (some (bytes "src/main.c"))
            42
            (bytes "Calling clone()")
            none
            initial).0
        ≡ (print_explain_at env false
            (some (bytes "src/main.c"))
            42
            (bytes "Calling clone()")
            none
            initial).0)
terminal_same_example =
    terminal_same env (some (bytes "src/main.c")) 42 refl now warn (bytes "ab") initial
      (bytes "Calling clone()") none refl refl

abbrev shell_process : Process
shell_process = record {
  args = some (some (bytes "sh") ∷ none ∷ some (bytes "-c") ∷ []);
  args_len = 3;
  env = none;
  env_len = 0;
  cwd = none;
  uid = 0;
  gid = 0;
  no_new_privileges = false;
  console_size = none;
  terminal = false;
}

command_text_lem_example :
    command_text shell_process ≡ shown (args_read shell_process.args shell_process.args_len)
command_text_lem_example = command_text_lem shell_process

printed : command_text shell_process ≡ bytes "sh  -c"
unfolding command_text
printed = refl

choose_state_dir_lem_example : (choose_state_dir env).0 ≡ get_state_dir env
choose_state_dir_lem_example = choose_state_dir_lem env
