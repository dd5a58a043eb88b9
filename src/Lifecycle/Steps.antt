-- ===== src/Lifecycle/Steps.antt =====
-- The commands as steps of a system that many runs of the program share, one run of the program after
-- the other. A step's premises say that the stores which the command makes
-- succeed, `fclose` included.
use vibe_kata.Base.{◌⊎◌, ◌≡◌, ◌≢◌, true, false, Option, none, some, [], is_some, if◌then◌else◌, ℕ}
use vibe_kata.Base.Int.{ℤ}
use vibe_kata.Base.Bytes.{CString, bytes}
use vibe_kata.Files.{Files}
use vibe_kata.Jansson.{Jansson}
use vibe_kata.Types.{Container, Options}
use vibe_kata.State.{Env}
use vibe_kata.State.Saved.{Saved}
use vibe_kata.State
use vibe_kata.Container.Kernel.{Kernel}
use vibe_kata.Container.Context.{Context}
use vibe_kata.Container.Cgroups.{cgroup_delete}
use vibe_kata.Container.Process.{container_exec}
use vibe_kata.Lifecycle.Defs.{ensure_state_dir, has_valid_spec, create, as_running, as_stopped}
use vibe_kata.Lifecycle.Created.{create_flushes}
use vibe_kata.Lifecycle.Context.{Prepared, context_of}
use vibe_kata.Lifecycle.Start.{returned, prepare, start}
use vibe_kata.Lifecycle.Running.{
  has_process, is_pid_alive, stop_process, delete, nsenter_argv, resume,
}

module _ {W J T : Type 0} (fs : Files W T) (js : Jansson J T) (env : Env) (k : Kernel W) where
  -- The store returns 0, and what it has buffered is written.
  abbrev pub Saves : Container → W → Type 0
  Saves c v = Saved fs js env c v

  -- A bundle path that is not empty and can be stored.
  pub record IsUsable (opts : Options) : Type 0 where
    pub full : opts.bundle_path ≢ []
    pub encodes : is_some (js.string opts.bundle_path) ≡ true

  -- The store of the running container.
  abbrev pub LaunchStored : CString → W → Type 0
  LaunchStored i w =
      (p : Prepared) (ctx : Context) (pid : ℤ)
      → prepare fs js env i w ≡ some p
      → context_of p ≡ some ctx
      → (container_exec fs k ctx w).0 ≡ some pid
      → Saves (as_running p.stored pid) (container_exec fs k ctx w).1

  -- The store of the stopped container, after the wait.
  abbrev pub EndStored : CString → W → Type 0
  EndStored i w =
      (p : Prepared) (ctx : Context) (pid : ℤ)
      → prepare fs js env i w ≡ some p
      → context_of p ≡ some ctx
      → (container_exec fs k ctx w).0 ≡ some pid
      → Saves (as_stopped p.stored)
          (k.waitpid pid
            (State.save fs js env (as_running p.stored pid) (container_exec fs k ctx w).1).1).1

  -- The store of `update_stopped_state_if_dead`, where it makes one.
  abbrev pub UpdateStored : Container → W → Type 0
  UpdateStored c w =
      (is_pid_alive k c.init_pid w).0 ≡ false → Saves (as_stopped c) (is_pid_alive k c.init_pid w).1

  -- The same in `nk_container_resume`: where the process is gone at once, and after `nsenter`.
  abbrev pub ResumeStored : CString → Option CString → W → Type 0
  ResumeStored i exec_cmd w =
      (c : Container)
      → State.load fs js env i w ≡ some c
      → let w1 = (is_pid_alive k c.init_pid w).1 in
        let forked = k.fork_execvp (bytes "nsenter") (nsenter_argv c.init_pid exec_cmd) w1 in
        UpdateStored c w1
        × ((child : ℤ) → forked.0 ≡ some child → UpdateStored c (k.waitpid child forked.1).1)

  -- The deletion of the state file in `nk_container_delete`.
  abbrev pub Deletes : CString → W → Type 0
  Deletes i w =
      (c : Container)
      → State.load fs js env i w ≡ some c
      → let w1 = if has_process c then stop_process k c.init_pid w else w in
        (State.delete fs env i (cgroup_delete fs k i w1).1).0 ≡ some tt

  -- One command on the container `i`. The state file of a new container is one that was not there.
  pub data Step (i : CString) (w : W) : W → Type 0 where
    creates :
        (opts : Options)
        → IsUsable opts
        → State.load fs js env i w ≡ none
        → (create fs js env opts i w).0 ≡ some tt
        → create_flushes fs js env opts i w ≡ true
        → Step i w (create fs js env opts i w).1
    create_refused :
        (opts : Options) → State.exists fs env i w ≡ true → Step i w (create fs js env opts i w).1
    create_invalid :
        (opts : Options)
        → ((ensure_state_dir fs env w).0 ≡ none)
          ⊎ (has_valid_spec fs js env opts.bundle_path (ensure_state_dir fs env w).1 ≡ false)
        → Step i w (create fs js env opts i w).1
    starts :
        {r : Option ℕ} {w' : W}
        → start fs js env k i false w ≡ returned r w'
        → LaunchStored i w
        → Step i w w'
    attaches :
        {r : Option ℕ} {w' : W}
        → start fs js env k i true w ≡ returned r w'
        → LaunchStored i w
        → EndStored i w
        → Step i w w'
    resumes :
        (exec_cmd : Option CString)
        → ResumeStored i exec_cmd w
        → Step i w (resume fs js env k i exec_cmd w).1
    deletes : Deletes i w → Step i w (delete fs js env k i w).1

  -- The worlds that commands on the containers of `ids` lead to.
  pub data Reach (ids : CString → Type 0) (w : W) : W → Type 0 where
    start_at : Reach ids w w
    then_step : {u v : W} (i : CString) → Reach ids w u → ids i → Step i u v → Reach ids w v

  -- In some world between the two nothing is loaded for `j`.
  abbrev pub Removed : (CString → Type 0) → CString → W → W → Type 0
  Removed ids j w v = (u : W) × Reach ids w u × (State.load fs js env j u ≡ none) × Reach ids u v
