-- ===== src/Lifecycle/Ended.antt =====
-- What `nk_container_resume`, `nk_container_delete` and `nk_container_run` do.
use vibe_kata.Base.{
  ◌≡◌, refl, Bool, true, false, Option, none, some, Option-cases, inl, inr, arith, is_some,
  if◌then◌else◌,
}
use vibe_kata.Base.Int.{pos}
use vibe_kata.Base.Bytes.{CString}
use vibe_kata.Files
use vibe_kata.Files.{Files}
use vibe_kata.Jansson
use vibe_kata.Jansson.{Jansson}
use vibe_kata.Types.{stopped, Container, Options}
use vibe_kata.State
use vibe_kata.State.{Env, get_container_state_path}
use vibe_kata.State.Saved.{Saved}
use vibe_kata.State.Frame.{load-delete}
use vibe_kata.Container.Kernel.{Kernel}
use vibe_kata.Container.Cgroups.{cgroup_delete}
use vibe_kata.Lifecycle.Defs.{as_stopped, create}
use vibe_kata.Lifecycle.Created.{create_existing}
use vibe_kata.Lifecycle.Started.{load-save_held}
use vibe_kata.Lifecycle.Start.{returned}
use vibe_kata.Lifecycle.Running.{
  has_process, is_pid_alive, stop_process, delete, update_stopped_state_if_dead, resume_live,
  resume, run,
}

module _ {W J T : Type 0} (fs : Files W T) (js : Jansson J T) (env : Env) (k : Kernel W) where
  -- `nk_container_resume` fails and changes nothing, unless the container is stored as running with
  -- a process.
  pub resume_refused :
      (i : CString) (exec_cmd : Option CString) (w : W)
      → ((c : Container) → State.load fs js env i w ≡ some c → has_process c ≡ false)
      → resume fs js env k i exec_cmd w ≡ (none, w)
  unfolding resume
  resume_refused i exec_cmd w bad = elim (Option-cases (State.load fs js env i w)) [
    | inl e ↦ ground (arith, e)
    | inr (c, e) ↦ ground (arith, e, bad c e)
  ]

  resume_of_dead :
      (i : CString) (exec_cmd : Option CString) (w : W) (c : Container)
      → State.load fs js env i w ≡ some c
      → has_process c ≡ true
      → (is_pid_alive k c.init_pid w).0 ≡ false
      → resume fs js env k i exec_cmd w
        ≡ (none, update_stopped_state_if_dead fs js env k c (is_pid_alive k c.init_pid w).1)
  unfolding resume resume_live
  resume_of_dead i exec_cmd w c loaded live dead = ground (arith, loaded, live, dead)

  update_of_dead :
      (c : Container) (w : W)
      → has_process c ≡ true
      → (is_pid_alive k c.init_pid w).0 ≡ false
      → update_stopped_state_if_dead fs js env k c w
        ≡ (State.save fs js env (as_stopped c) (is_pid_alive k c.init_pid w).1).1
  unfolding update_stopped_state_if_dead
  update_of_dead c w live dead = ground (arith, live, dead)

  pub delete_of_loaded :
      (i : CString) (w : W) (c : Container)
      → State.load fs js env i w ≡ some c
      → delete fs js env k i w ≡ (
        some tt,
        (State.delete fs env i
            (cgroup_delete fs k i (if has_process c then stop_process k c.init_pid w else w)).1).1,
      )
  unfolding delete
  delete_of_loaded i w c loaded = ground (arith, loaded)

module _ {W J T : Type 0} {fs : Files W T} (js : Jansson J T) (env : Env) (k : Kernel W)
    {same : CString → CString → Bool} (F : Files.IsLawful fs same) where
  -- A resume of a container that is stored as running with a process fails, whatever comes of the
  -- store, where the process is gone at both of the tests that the code makes. Where the state is
  -- then stored, `fclose` included, the container is loaded as stopped with no process and is the
  -- same otherwise. This is for a state file that names its own container and an id that is valid
  -- UTF-8.
  pub resume_dead :
      Jansson.IsLawful js
      → (i : CString) (exec_cmd : Option CString) (w : W) (c : Container)
      → State.load fs js env i w ≡ some c
      → c.id ≡ some i
      → is_some (js.string i) ≡ true
      → has_process c ≡ true
      → let (alive, w1) = is_pid_alive k c.init_pid w in
        alive ≡ false
        → let (still, w2) = is_pid_alive k c.init_pid w1 in
          still ≡ false
          → ((resume fs js env k i exec_cmd w).0 ≡ none)
            × (Saved fs js env (as_stopped c) w2
                → State.load fs js env i (resume fs js env k i exec_cmd w).1 ≡ some (as_stopped c))
  resume_dead L i exec_cmd w c loaded named encodes live dead gone =
      let w1 = (is_pid_alive k c.init_pid w).1 in
      rw
        (
          resume_of_dead fs js env k i exec_cmd w c loaded live dead,
          update_of_dead fs js env k c w1 live gone,
        )
        (
          refl,
          λ saved.
              load-save_held env k F L i w (is_pid_alive k c.init_pid w1).1 c stopped (pos 0) loaded
                named encodes (ground arith) (omega arith) saved,
        )

  -- `nk_container_delete` returns 0 for a container that is stored, also where its state file
  -- cannot be deleted. Where its state file can be deleted, after the process has been stopped and
  -- the cgroup removed, neither `nk_state_load` nor `nk_state_exists` finds the container any more.
  pub delete_removes :
      (i : CString) (w : W) (c : Container)
      → State.load fs js env i w ≡ some c
      → let w1 = if has_process c then stop_process k c.init_pid w else w in
        let w2 = (cgroup_delete fs k i w1).1 in
        ((delete fs js env k i w).0 ≡ some tt)
        × ((State.delete fs env i w2).0 ≡ some tt
            → (State.load fs js env i (delete fs js env k i w).1 ≡ none)
              × (State.exists fs env i (delete fs js env k i w).1 ≡ false))
  delete_removes i w c loaded =
      rw (delete_of_loaded fs js env k i w c loaded)
        (refl, λ deleted. load-delete js env F i _ deleted)

  -- `nk_container_run` of an id whose state file is there fails in the state that its creation
  -- leaves, so with no process started, and nothing changes that `nk_state_load` returns for any
  -- container.
  pub run_existing :
      (opts : Options) (i j : CString) (w : W)
      → State.exists fs env i w ≡ true
      → (run fs js env k opts i w ≡ returned none (create fs js env opts i w).1)
        × (State.load fs js env j (create fs js env opts i w).1 ≡ State.load fs js env j w)
  unfolding run
  run_existing opts i j w there =
      let (failed, kept) = create_existing js env F opts i j w there in
      (ground (arith, failed), kept)
