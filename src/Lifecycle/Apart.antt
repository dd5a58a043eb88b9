-- ===== src/Lifecycle/Apart.antt =====
-- A command on one container and what is loaded for another.
use vibe_kata.Base.{
  ◌≡◌, ◌∙◌, ap, Bool, true, false, Bool-cases, Option, some, Option-cases, inl, inr, ℕ,
}
use vibe_kata.Base.Bytes.{CString, bytes}
use vibe_kata.Files
use vibe_kata.Files.{Files}
use vibe_kata.Jansson
use vibe_kata.Jansson.{Jansson}
use vibe_kata.Types.{Container}
use vibe_kata.State
use vibe_kata.State.{Env, get_container_state_path}
use vibe_kata.Container.Kernel.{Kernel}
use vibe_kata.Lifecycle.Defs.{as_stopped}
use vibe_kata.Lifecycle.Running.{
  has_process, nsenter_argv, update_stopped_state_if_dead, run_nsenter, resume,
}
use vibe_kata.Lifecycle.Frame.{read-is_pid_alive, Undisturbed}
use vibe_kata.Lifecycle.Others.{load-create_other, load-start_other, load-delete_other}
use vibe_kata.Lifecycle.Change.{IsNamed}
use vibe_kata.Lifecycle.Steps.{
  Step, creates, create_refused, create_invalid, starts, attaches, resumes, deletes,
}
use vibe_kata.State.Frame.{load_of_read, read-save_ne}
use vibe_kata.Lifecycle.Cases.{
  resume_of_missing, resume_of_idle, update_cases, run_nsenter_cases, resume_cases,
}

module _ {W J T : Type 0} {fs : Files W T} {js : Jansson J T} (env : Env) (k : Kernel W)
    {same_file : CString → CString → Bool} (F : Files.IsLawful fs same_file)
    (L : Jansson.IsLawful js) (i j : CString)
    (apart : same_file (get_container_state_path env i) (get_container_state_path env j) ≡ false)
    (U : Undisturbed fs k (get_container_state_path env j)) where
  abbrev file : CString
  file = get_container_state_path env j

  module _ (c : Container) (live : has_process c ≡ true) (named : c.id ≡ some i) where
    read-update :
        (v : W) → fs.read file (update_stopped_state_if_dead fs js env k c v) ≡ fs.read file v
    read-update v = elim (update_cases fs js env k c v live) [
      | inl q ↦ rw q (read-is_pid_alive U c.init_pid v)
      | inr (dead, q) ↦ rw q (
          read-save_ne js env F (as_stopped c) i file _ named apart
          ∙ read-is_pid_alive U c.init_pid v)
    ]

    read-run_nsenter :
        (cmd : Option CString) (w : W)
        → fs.read file (run_nsenter fs js env k c cmd w).1 ≡ fs.read file w
    read-run_nsenter cmd w =
        let argv = nsenter_argv c.init_pid cmd in
        let w1 = (k.fork_execvp (bytes "nsenter") argv w).1 in
        let e1 : fs.read file w1 ≡ fs.read file w = U.read-fork_execvp (bytes "nsenter") argv w in
        elim (run_nsenter_cases fs js env k c cmd w) [
          | inl f ↦ rw f e1
          | inr (child, e, inl f) ↦ rw f (U.read-waitpid child w1 ∙ e1)
          | inr (child, e, inr f) ↦ rw f (read-update _ ∙ U.read-waitpid child w1 ∙ e1)
        ]

    read-resume_live :
        (cmd : Option CString) (w : W)
        → State.load fs js env i w ≡ some c
        → fs.read file (resume fs js env k i cmd w).1 ≡ fs.read file w
    read-resume_live cmd w loaded =
        let e1 = read-is_pid_alive U c.init_pid w in
        elim (resume_cases fs js env k i cmd w c loaded live) [
          | inl q ↦ rw q e1
          | inr (inl q) ↦ rw q (read-run_nsenter cmd _ ∙ e1)
          | inr (inr q) ↦ rw q (read-update _ ∙ e1)
        ]

  load-resume_other :
      (cmd : Option CString) (w : W)
      → IsNamed i (State.load fs js env i w)
      → State.load fs js env j (resume fs js env k i cmd w).1 ≡ State.load fs js env j w
  load-resume_other cmd w named = elim (Option-cases (State.load fs js env i w)) [
    | inl e ↦
        ap (λ (r : Option ℕ × W). State.load fs js env j r.1)
          (resume_of_missing fs js env k i cmd w e)
    | inr (c, e) ↦ elim (Bool-cases (has_process c)) [
      | inl live ↦ load_of_read js env F j _ w (read-resume_live c live (named c e) cmd w e)
      | inr dead ↦
          ap (λ (r : Option ℕ × W). State.load fs js env j r.1)
            (resume_of_idle fs js env k i cmd w c e dead)
    ]
  ]

  -- A step of the life of a container, by `create`, `start`, `exec` or `delete`, changes nothing
  -- that `nk_state_load` returns for a container whose state file is another file, where the calls
  -- on processes, pipes and control files leave that other file as it is. This is for a state file
  -- that names its own container.
  pub load-Step_other :
      {w w' : W}
      → Step fs js env k i w w'
      → IsNamed i (State.load fs js env i w)
      → State.load fs js env j w' ≡ State.load fs js env j w
  load-Step_other {w} (creates opts u absent made _) named =
      load-create_other js env F opts i j w apart
  load-Step_other {w} (create_refused opts there) named =
      load-create_other js env F opts i j w apart
  load-Step_other {w} (create_invalid opts bad) named = load-create_other js env F opts i j w apart
  load-Step_other {w} {w'} (starts {r} h saved) named =
      load-start_other js env F k i j apart U false w {r = r} {w' = w'} named h
  load-Step_other {w} {w'} (attaches {r} h saved ended) named =
      load-start_other js env F k i j apart U true w {r = r} {w' = w'} named h
  load-Step_other {w} (resumes cmd saved) named = load-resume_other cmd w named
  load-Step_other {w} (deletes gone) named = load-delete_other js env F k i j apart U w
