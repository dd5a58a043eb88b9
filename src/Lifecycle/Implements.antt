-- ===== src/Lifecycle/Implements.antt =====
-- The commands implement the state machine of a container's life.
use vibe_kata.Base.{
  ◌≡◌, refl, sym, ◌∙◌, ap, subst, Bool, true, false, Bool-cases, Option, some, Option-cases, inl,
  inr, arith, is_some, ℕ,
}
use vibe_kata.Base.Int.{pos}
use vibe_kata.Base.Bytes.{CString, bytes}
use vibe_kata.Files
use vibe_kata.Files.{Files}
use vibe_kata.Jansson
use vibe_kata.Jansson.{Jansson}
use vibe_kata.Types.{stopped, Container}
use vibe_kata.State
use vibe_kata.State.{Env, get_container_state_path}
use vibe_kata.Container.Kernel.{Kernel}
use vibe_kata.Container.Context.{Context}
use vibe_kata.Lifecycle.Context.{Prepared, context_of}
use vibe_kata.Lifecycle.Start.{returned, prepare, launch, start}
use vibe_kata.Lifecycle.Running.{
  has_process, is_pid_alive, delete, nsenter_argv, update_stopped_state_if_dead, resume,
}
use vibe_kata.Lifecycle.Created.{create_unstored, create_existing}
use vibe_kata.Lifecycle.Checked.{PidsFit, prepare_stored}
use vibe_kata.Lifecycle.Started.{load-save_held}
use vibe_kata.Lifecycle.Ended.{delete_removes}
use vibe_kata.Lifecycle.Frame.{read-is_pid_alive, Undisturbed, delete_of_missing}
use vibe_kata.Lifecycle.Change.{Change, same, ending, removal, IsNamed}
use vibe_kata.Lifecycle.Steps.{
  UpdateStored, ResumeStored, Deletes, Step, creates, create_refused, create_invalid, starts,
  attaches, resumes, deletes,
}
use vibe_kata.Lifecycle.Cases.{
  resume_of_missing, resume_of_idle, running_of, start_cases, update_cases, run_nsenter_cases,
  resume_cases,
}
use vibe_kata.Lifecycle.Refines.{unchanged, create-Change, launch-Change, attach-Change}

module _ {W J T : Type 0} {fs : Files W T} {js : Jansson J T} (env : Env) (k : Kernel W)
    {same_file : CString → CString → Bool} (F : Files.IsLawful fs same_file)
    (L : Jansson.IsLawful js) (i : CString) (encodes : is_some (js.string i) ≡ true)
    (U : Undisturbed fs k (get_container_state_path env i)) where
  abbrev stored : W → Option Container
  stored w = State.load fs js env i w

  start-Change :
      (attach : Bool) (w : W) {r : Option ℕ} {w' : W}
      → ((p : Prepared) (ctx : Context)
          → prepare fs js env i w ≡ some p
          → context_of p ≡ some ctx
          → Change i (stored w) (stored (launch fs js env k p.stored ctx attach w).1))
      → start fs js env k i attach w ≡ returned r w'
      → Change i (stored w) (stored w')
  start-Change attach w {r} {w'} launched h =
      elim (start_cases fs js env k i attach w {r = r} {w' = w'} h) [
        | inl e ↦ same (ap stored (sym e))
        | inr (p, ctx, e, f, last) ↦
            subst (λ v. Change i (stored w) (stored v)) last (launched p ctx e f)
      ]

  module _ (w : W) (c : Container) (loaded : stored w ≡ some c) (live : has_process c ≡ true)
      (named : c.id ≡ some i) where
    abbrev KeepsFile : W → Type 0
    KeepsFile v =
        fs.read (get_container_state_path env i) v ≡ fs.read (get_container_state_path env i) w

    kept : (v : W) → KeepsFile v → Change i (stored w) (stored v)
    kept v e = unchanged env k F L i encodes U v w e

    update-Change :
        (v : W)
        → KeepsFile v
        → UpdateStored fs js env k c v
        → Change i (stored w) (stored (update_stopped_state_if_dead fs js env k c v))
    update-Change v e saved = elim (update_cases fs js env k c v live) [
      | inl q ↦ rw q (kept _ (read-is_pid_alive U c.init_pid v ∙ e))
      | inr (dead, q) ↦ rw q (
          ending c loaded (running_of c live) (
            load-save_held env k F L i w _ c stopped (pos 0) loaded named encodes (ground arith)
              (omega arith) (saved dead)))
    ]

    resume_live-Change :
        (cmd : Option CString)
        → ResumeStored fs js env k i cmd w
        → Change i (stored w) (stored (resume fs js env k i cmd w).1)
    resume_live-Change cmd saved =
        let w1 = (is_pid_alive k c.init_pid w).1 in
        let e1 : KeepsFile w1 = read-is_pid_alive U c.init_pid w in
        let argv = nsenter_argv c.init_pid cmd in
        let w2 = (k.fork_execvp (bytes "nsenter") argv w1).1 in
        let e2 : KeepsFile w2 = U.read-fork_execvp (bytes "nsenter") argv w1 ∙ e1 in
        let (gone, later) = saved c loaded in
        elim (resume_cases fs js env k i cmd w c loaded live) [
          | inl q ↦ rw q (kept w1 e1)
          | inr (inl q) ↦ rw q (elim (run_nsenter_cases fs js env k c cmd w1) [
            | inl f ↦ rw f (kept w2 e2)
            | inr (child, e, inl f) ↦ rw f (kept _ (U.read-waitpid child w2 ∙ e2))
            | inr (child, e, inr f) ↦
                rw f (update-Change _ (U.read-waitpid child w2 ∙ e2) (later child e))
          ])
          | inr (inr q) ↦ rw q (update-Change w1 e1 gone)
        ]

  resume-Change :
      (cmd : Option CString) (w : W)
      → IsNamed i (stored w)
      → ResumeStored fs js env k i cmd w
      → Change i (stored w) (stored (resume fs js env k i cmd w).1)
  resume-Change cmd w named saved = elim (Option-cases (stored w)) [
    | inl e ↦ rw (resume_of_missing fs js env k i cmd w e) (same refl)
    | inr (c, e) ↦ elim (Bool-cases (has_process c)) [
      | inl live ↦ resume_live-Change w c e live (named c e) cmd saved
      | inr idle ↦ rw (resume_of_idle fs js env k i cmd w c e idle) (same refl)
    ]
  ]

  delete-Change :
      (w : W) → Deletes fs js env k i w → Change i (stored w) (stored (delete fs js env k i w).1)
  delete-Change w gone = elim (Option-cases (stored w)) [
    | inl e ↦ rw (delete_of_missing fs js env k i w e) (same refl)
    | inr (c, e) ↦ removal ((delete_removes js env k F i w c e).1 (gone c e)).0
  ]

  -- Each command on a container does to what `nk_state_load` returns for it one of the changes of
  -- the life cycle: nothing; a creation, where nothing is stored, of a container with this id,
  -- created and with no process; from created to running with a process id of 32 bits; from a state
  -- other than stopped to stopped with no process; or a removal. The other fields of a container
  -- that is there stay. The commands are a creation that returns 0 and whose `fclose` writes what
  -- is buffered, of a bundle path that is not empty and can be stored and for an id for which
  -- nothing is loaded; a creation that is refused, since the id has a state file, the state
  -- directory cannot be made or there is no valid specification; a start that does not crash, a
  -- resume and a deletion, whose stores, `fclose` included, and deletions of the state file
  -- succeed. This is for a `clone` that returns process ids of 32 bits, an id that is valid UTF-8,
  -- a state file that names its own container where there is one, and calls on processes, pipes and
  -- control files that leave the state file as it is.
  pub Step-Change :
      PidsFit k
      → {w w' : W} → Step fs js env k i w w'
      → IsNamed i (stored w)
      → Change i (stored w) (stored w')
  Step-Change fit {w} (creates opts u absent made flushed) named =
      create-Change env k F L i encodes U opts w u absent made flushed
  Step-Change fit {w} (create_refused opts there) named =
      same (create_existing js env F opts i i w there).1
  Step-Change fit {w} (create_invalid opts bad) named =
      same (create_unstored js env F opts i i w bad).1
  Step-Change fit {w} {w'} (starts {r} h saved) named =
      start-Change false w {r = r} {w' = w'}
        (λ p ctx e f.
          let (loaded, fresh, mode) = prepare_stored fs js env i w {p = p} e in
          launch-Change env k F L i encodes U fit w p (named p.stored loaded) loaded fresh ctx
            (λ pid q. saved p ctx pid e f q))
        h
  Step-Change fit {w} {w'} (attaches {r} h saved ended) named =
      start-Change true w {r = r} {w' = w'}
        (λ p ctx e f.
          let (loaded, fresh, mode) = prepare_stored fs js env i w {p = p} e in
          attach-Change env k F L i encodes U fit w p (named p.stored loaded) loaded fresh ctx
            (λ pid q. saved p ctx pid e f q) (λ pid q. ended p ctx pid e f q))
        h
  Step-Change fit {w} (resumes cmd saved) named = resume-Change cmd w named saved
  Step-Change fit {w} (deletes gone) named = delete-Change w gone
