-- ===== src/Program.antt =====
-- `main` (src/main.c) as a whole: from the arguments to the exit code. Of what is printed it has the texts that
-- `main` itself is asked for, the usage, the version and the state of a container.
pub mod Usage
pub mod Whole
use vibe_kata.Base.{Option, none, some, List, [], ◌∷◌, ◌++◌, map, if◌then◌else◌}
use vibe_kata.Base.Int.{ℤ, pos}
use vibe_kata.Base.Bytes.{CString, bytes, str_eq}
use vibe_kata.Files.{Files}
use vibe_kata.Jansson.{Jansson}
use vibe_kata.Types.{Options}
use vibe_kata.State.{Env}
use vibe_kata.Container.Kernel.{Kernel}
use vibe_kata.Log.{LogConfig}
use vibe_kata.Args.{
  Getopt, Parse, rejected, exited, accepted, asked_help, asked_version, parse_args,
}
use vibe_kata.Lifecycle.{
  Outcome, crashed, returned, container_state, state_answer, renamed, main_command,
}
use vibe_kata.Program.Usage.{usage, version}

-- A call of `nk_stderr`, of `nk_log_info` or of `printf`.
pub data Message : Type 0 where
  to_stderr info_line to_stdout : CString → Message

pub record Ended (W : Type 0) : Type 0 where
  pub ends : Outcome W ℤ
  pub shown : List Message

module _ {W J T : Type 0} (fs : Files W T) (js : Jansson J T) (env : Env) (k : Kernel W) where
  -- A command with its container. An id that is NULL is not followed further: it counts as a crash.
  unfoldable pub run_command : Options → Option CString → W → Ended W
  run_command opts none w = record { ends = crashed; shown = [] }
  run_command opts (some id) w = record {
    ends = main_command fs js env k opts id w;
    shown =
        if str_eq (renamed opts.command) (bytes "state")
        then to_stdout ((state_answer (container_state fs js env id w)).0 ++ bytes "\n") ∷ []
        else [];
  }

  abbrev show_usage : CString → ℤ → W → Ended W
  show_usage prog_name ret w = record {
    ends = returned (some ret) w;
    shown = map to_stderr (usage prog_name);
  }

  abbrev show_version : W → Ended W
  show_version w = record { ends = returned (some (pos 0)) w; shown = map info_line version }

  -- The dispatch on the command.
  unfoldable pub run_options : CString → Options → W → Ended W
  unfolding run_command
  run_options prog_name opts w =
      if str_eq opts.command (bytes "help")
      then show_usage prog_name (pos 0) w
      else if str_eq opts.command (bytes "version")
      then show_version w
      else run_command opts opts.container_id w

  -- `main`, for the name of the program and the other arguments; the log is as it was configured before.
  unfoldable pub main : Getopt → LogConfig → CString → List CString → W → Ended W
  unfolding run_options
  main g log prog_name args w = elim (parse_args g log args) [
    | rejected ↦ show_usage prog_name (pos 1) w
    | exited asked ↦ elim asked [
      | asked_help ↦ show_usage prog_name (pos 0) w
      | asked_version ↦ show_version w
    ]
    | accepted p ↦ run_options prog_name p.options w
  ]
