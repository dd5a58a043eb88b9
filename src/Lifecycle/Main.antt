-- ===== src/Lifecycle/Main.antt =====
-- The dispatch of `main` (src/main.c), for options with a container.
use vibe_kata.Base.{ℕ, zero, suc, Option, none, some, if◌then◌else◌}
use vibe_kata.Base.Int.{ℤ, pos, negsuc, int_eqb}
use vibe_kata.Base.Bytes.{CString, bytes, str_eq}
use vibe_kata.Files.{Files}
use vibe_kata.Jansson.{Jansson}
use vibe_kata.Types.{ContainerState, invalid, created, running, stopped, paused, Options}
use vibe_kata.State.{Env}
use vibe_kata.Container.Kernel.{Kernel}
use vibe_kata.Lifecycle.Defs.{create, container_state}
use vibe_kata.Lifecycle.Start.{Outcome, crashed, returned, start}
use vibe_kata.Lifecycle.Running.{resume, delete, run, write_container_pid_file}

-- What `state` prints, and `ret`.
unfoldable pub state_answer : ContainerState → CString × ℤ
state_answer invalid = (bytes "unknown", pos 1)
state_answer created = (bytes "created", pos 0)
state_answer running = (bytes "running", pos 0)
state_answer stopped = (bytes "stopped", pos 0)
state_answer paused = (bytes "paused", pos 0)

-- `opts.command` after the check for `resume`.
unfoldable pub renamed : CString → CString
renamed command = if str_eq command (bytes "resume") then bytes "exec" else command

-- `ret` of a function that returns 0 or -1, and of one that returns an exit code or -1.
abbrev pub ret_of_unit : Option (Unit {0}) → ℤ
ret_of_unit none = negsuc 0
ret_of_unit (some _) = pos 0

abbrev pub ret_of_code : Option ℕ → ℤ
ret_of_code none = negsuc 0
ret_of_code (some n) = pos n

module _ {W J T : Type 0} (fs : Files W T) (js : Jansson J T) (env : Env) (k : Kernel W) where
  -- The process id is written where the container has been started in the background.
  unfoldable pub write_pid_if_detached : Options → CString → W → ℤ × W
  write_pid_if_detached opts id w = elim opts.pid_file [
    | none ↦ (pos 0, w)
    | some pid_file ↦
        if opts.detach
        then (let (r, w') = write_container_pid_file fs js env k pid_file id w in
            (ret_of_unit r, w'))
        else (pos 0, w)
  ]

  -- After `start`: `exit_code` replaces the 0 where the container was waited for.
  unfoldable pub finish_start : Options → CString → Outcome W ℕ → Outcome W ℤ
  finish_start opts id crashed = crashed
  finish_start opts id (returned none w) = returned (some (negsuc 0)) w
  finish_start opts id (returned (some exit_code) w) =
      let (ret, w') = write_pid_if_detached opts id w in
      if int_eqb ret (pos 0)
      then returned (some (if opts.attach then pos exit_code else pos 0)) w'
      else returned (some ret) w'

  -- After `run`: the process id is written only where the result is 0.
  unfoldable pub finish_run_command : Options → CString → Outcome W ℕ → Outcome W ℤ
  finish_run_command opts id crashed = crashed
  finish_run_command opts id (returned none w) = returned (some (negsuc 0)) w
  finish_run_command opts id (returned (some zero) w) =
      let (ret, w') = write_pid_if_detached opts id w in returned (some ret) w'
  finish_run_command opts id (returned (some (suc n)) w) = returned (some (pos (suc n))) w

  -- `main` for the options and their container: `ret`, and the world.
  unfoldable pub main_command : Options → CString → W → Outcome W ℤ
  main_command opts id w =
      let command = renamed opts.command in
      if str_eq command (bytes "create")
      then (let (r, w') = create fs js env opts id w in returned (some (ret_of_unit r)) w')
      else if str_eq command (bytes "start")
      then finish_start opts id (start fs js env k id opts.attach w)
      else if str_eq command (bytes "run")
      then finish_run_command opts id (run fs js env k opts id w)
      else if str_eq command (bytes "exec")
      then (let (r, w') = resume fs js env k id opts.resume_exec w in
          returned (some (ret_of_code r)) w')
      else if str_eq command (bytes "delete")
      then (let (r, w') = delete fs js env k id w in returned (some (ret_of_unit r)) w')
      else if str_eq command (bytes "state")
      then returned (some (state_answer (container_state fs js env id w)).1) w
      else returned (some (pos 0)) w
