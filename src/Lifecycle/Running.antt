-- ===== src/Lifecycle/Running.antt =====
-- `nk_container_run`, `nk_container_resume` and `nk_container_delete` (src/main.c).
use vibe_kata.Base.{
  ℕ, ◌+◌, Bool, true, false, Option, none, some, List, [], ◌∷◌, ◌++◌, if◌then◌else◌,
}
use vibe_kata.Base.Int.{ℤ, le_zero}
use vibe_kata.Base.Bytes.{snprintf, CString, bytes, nonempty}
use vibe_kata.Effects.{M, ◌>>=◌}
use vibe_kata.Files.{eperm, Files}
use vibe_kata.Jansson.{Jansson}
use vibe_kata.Types.{ContainerState, running, Container, Options}
use vibe_kata.State.{Env}
use vibe_kata.State
use vibe_kata.Container.Kernel.{Kernel, WaitStatus, exit_status, term_signal, other_status}
use vibe_kata.Container.Process.{container_signal}
use vibe_kata.Container.Cgroups.{cgroup_cleanup}
use vibe_kata.Base.Decimal.{decimal_int}
use vibe_kata.Lifecycle.Defs.{create, as_stopped}
use vibe_kata.Lifecycle.Start.{Outcome, crashed, returned, start}

abbrev pub sigterm : ℕ
sigterm = 15

abbrev pub sigkill : ℕ
sigkill = 9

abbrev is_running : ContainerState → Bool
is_running running = true
is_running _ = false

-- `container->state == NK_STATE_RUNNING && container->init_pid > 0`
abbrev pub has_process : Container → Bool
has_process c = if is_running c.state then (if le_zero c.init_pid then false else true) else false

-- The argument vectors of `nsenter`.
unfoldable pub nsenter_argv : ℤ → Option CString → List CString
nsenter_argv pid exec_cmd =
    bytes "nsenter"
    ∷ bytes "--target"
    ∷ snprintf 32 (decimal_int pid)
    ∷ bytes "--mount"
    ∷ bytes "--uts"
    ∷ bytes "--ipc"
    ∷ bytes "--net"
    ∷ bytes "--pid"
    ∷ bytes "--"
    ∷ bytes "/bin/sh"
    ∷ (elim exec_cmd [ none ↦ [] | some [] ↦ [] | some (b ∷ cmd) ↦ bytes "-lc" ∷ (b ∷ cmd) ∷ [] ])

-- `exit_code` after `nsenter`
unfoldable pub resume_code : WaitStatus → ℕ
resume_code (exit_status n) = n
resume_code (term_signal s) = 128 + s
resume_code other_status = 1

module _ {W : Type 0} (k : Kernel W) where
  -- `is_pid_alive`
  unfoldable pub is_pid_alive : ℤ → W → Bool × W
  is_pid_alive pid w =
      if le_zero pid
      then (false, w)
      else (let (e, w') = k.kill pid 0 w in
          (elim e [ none ↦ true | some eperm ↦ true | some _ ↦ false ], w'))

  abbrev pub is_procfs_available : W → Bool
  is_procfs_available = k.readable (bytes "/proc/self/ns/pid")

  -- SIGTERM, and SIGKILL where the process is still there a while later.
  unfoldable pub stop_process : ℤ → W → W
  stop_process pid w =
      let (termed, w1) = container_signal k pid sigterm w in
      elim termed [
        | none ↦ w1
        | some _ ↦
            let (e, w2) = k.kill pid 0 (k.usleep 100000 w1) in
            elim e [ none ↦ (container_signal k pid sigkill w2).1 | some _ ↦ w2 ]
      ]

module _ {W J T : Type 0} (fs : Files W T) (js : Jansson J T) (env : Env) (k : Kernel W) where
  -- `nk_container_delete`
  unfoldable pub delete : CString → M W (Unit {0})
  delete container_id w = elim (State.load fs js env container_id w) [
    | none ↦ (none, w)
    | some c ↦
        let w1 = if has_process c then stop_process k c.init_pid w else w in
        let w2 = (cgroup_cleanup fs k (some container_id) w1).1 in
        (some tt, (State.delete fs env container_id w2).1)
  ]

  -- `update_stopped_state_if_dead`
  unfoldable pub update_stopped_state_if_dead : Container → W → W
  update_stopped_state_if_dead c w =
      if has_process c
      then (let (alive, w1) = is_pid_alive k c.init_pid w in
          if alive then w1 else (State.save fs js env (as_stopped c) w1).1)
      else w

  -- `nsenter` in a child, and the wait for it.
  unfoldable pub run_nsenter : Container → Option CString → M W ℕ
  run_nsenter c exec_cmd = do
    child ← k.fork_execvp (bytes "nsenter") (nsenter_argv c.init_pid exec_cmd)
    status ← k.waitpid child
    λ w. (some (resume_code status), update_stopped_state_if_dead c w)

  unfoldable pub resume_live : Container → Option CString → M W ℕ
  resume_live c exec_cmd w =
      let (alive, w1) = is_pid_alive k c.init_pid w in
      if alive
      then (if is_procfs_available k w1 then run_nsenter c exec_cmd w1 else (none, w1))
      else (none, update_stopped_state_if_dead c w1)

  -- `nk_container_resume`
  unfoldable pub resume : CString → Option CString → M W ℕ
  resume container_id exec_cmd w = elim (State.load fs js env container_id w) [
    | none ↦ (none, w)
    | some c ↦ if has_process c then resume_live c exec_cmd w else (none, w)
  ]

  -- What `nk_container_run` does once the container is created: the result of the start, and the
  -- deletion of the container where `--rm` asks for it.
  unfoldable pub finish_run : Options → CString → Outcome W ℕ → Outcome W ℕ
  finish_run opts container_id crashed = crashed
  finish_run opts container_id (returned none w) =
      returned none (if opts.rm then (delete container_id w).1 else w)
  finish_run opts container_id (returned (some code) w) =
      let result = if opts.attach then code else 0 in
      if opts.rm
      then (let (done, w') = delete container_id w in
          returned (elim done [ none ↦ none | some _ ↦ some result ]) w')
      else returned (some result) w

  -- `nk_container_run`
  unfoldable pub run : Options → CString → W → Outcome W ℕ
  run opts container_id w =
      let (made, w1) = create fs js env opts container_id w in
      elim made [
        | none ↦ returned none w1
        | some _ ↦ finish_run opts container_id (start fs js env k container_id opts.attach w1)
      ]

  -- `write_container_pid_file`, with `write_pid_file`
  unfoldable pub write_container_pid_file : CString → CString → M W (Unit {0})
  write_container_pid_file pid_file container_id w = elim (State.load fs js env container_id w) [
    | none ↦ (none, w)
    | some c ↦
        if le_zero c.init_pid
        then (none, w)
        else if nonempty (some pid_file)
        then (let (opened, w') = k.write_file pid_file (decimal_int c.init_pid ++ (10 ∷ [])) w in
            (if opened then some tt else none, w'))
        else (some tt, w)
  ]
