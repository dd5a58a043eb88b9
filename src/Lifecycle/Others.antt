-- ===== src/Lifecycle/Others.antt =====
-- The commands on one container and what `nk_state_load` returns for another.
use vibe_kata.Base.{
  ◌≡◌, refl, ◌∙◌, ap, sym, Bool, false, Option, some, Option-cases, inl, inr, arith, ℕ,
}
use vibe_kata.Base.Int.{ℤ}
use vibe_kata.Base.Bytes.{CString}
use vibe_kata.Effects.Keeps.{bind_of_none, bind_of_some}
use vibe_kata.Files
use vibe_kata.Files.{Files}
use vibe_kata.Jansson.{Jansson}
use vibe_kata.Types.{Container, Options}
use vibe_kata.State
use vibe_kata.State.{Env, get_container_state_path}
use vibe_kata.State.Frame.{load_of_read, read-save_ne}
use vibe_kata.Container.Kernel.{Kernel}
use vibe_kata.Container.Context.{Context}
use vibe_kata.Container.Process.{container_exec, container_wait}
use vibe_kata.Lifecycle.Defs.{create, create_new, ensure_state_dir, as_running, as_stopped}
use vibe_kata.Lifecycle.Context.{context_of}
use vibe_kata.Lifecycle.Start.{returned, prepare, attach_to, launch, start}
use vibe_kata.Lifecycle.Running.{delete}
use vibe_kata.Lifecycle.Created.{read-ensure_state_dir}
use vibe_kata.Lifecycle.Checked.{prepare_stored}
use vibe_kata.Lifecycle.Frame.{Undisturbed, read-container_exec, read-delete, read-create_new}

module _ {W J T : Type 0} {fs : Files W T} (js : Jansson J T) (env : Env)
    {same : CString → CString → Bool} (F : Files.IsLawful fs same) where
  -- `nk_container_create` of one container, also where it fails, changes nothing that
  -- `nk_state_load` returns for a container whose state file is another file.
  pub load-create_other :
      (opts : Options) (i j : CString) (w : W)
      → same (get_container_state_path env i) (get_container_state_path env j) ≡ false
      → State.load fs js env j (create fs js env opts i w).1 ≡ State.load fs js env j w
  unfolding create
  load-create_other opts i j w apart =
      let q = get_container_state_path env j in
      let w1 = (ensure_state_dir fs env w).1 in
      let kept : fs.read q w1 ≡ fs.read q w =
        (read-ensure_state_dir env F q (fs.read q w)).at w refl in
      elim (Option-cases (ensure_state_dir fs env w).0) [
        | inl e ↦
            rw (bind_of_none (ensure_state_dir fs env) (λ _. create_new fs js env opts i) w e)
              (load_of_read js env F j _ w kept)
        | inr (_, e) ↦
            rw (bind_of_some (ensure_state_dir fs env) (λ _. create_new fs js env opts i) w e)
              (load_of_read js env F j _ w (read-create_new js env F opts i q w1 apart ∙ kept))
      ]

module _ {W J T : Type 0} {fs : Files W T} (js : Jansson J T) (env : Env)
    {same : CString → CString → Bool} (F : Files.IsLawful fs same) (k : Kernel W) (i j : CString)
    (apart : same (get_container_state_path env i) (get_container_state_path env j) ≡ false)
    (U : Undisturbed fs k (get_container_state_path env j)) where
  -- `nk_container_delete` of one container changes nothing that `nk_state_load` returns for a
  -- container whose state file is another file, where the calls on processes and control files
  -- leave that other file as it is.
  pub load-delete_other :
      (w : W) → State.load fs js env j (delete fs js env k i w).1 ≡ State.load fs js env j w
  load-delete_other w = load_of_read js env F j _ w (read-delete U F js env i w apart)

  module _ (c : Container) (named : c.id ≡ some i) where
    read-attach_to :
        (pid : ℤ) (w : W)
        → fs.read (get_container_state_path env j) (attach_to fs js env k c pid w).1
          ≡ fs.read (get_container_state_path env j) w
    unfolding attach_to container_wait
    read-attach_to pid w =
        let w1 = (k.waitpid pid w).1 in
        ground (
          arith,
          U.read-waitpid pid w,
          read-save_ne js env F (as_stopped c) i (get_container_state_path env j) w1 named apart,
        )

    read-launch :
        (ctx : Context) (attach : Bool) (w : W)
        → fs.read (get_container_state_path env j) (launch fs js env k c ctx attach w).1
          ≡ fs.read (get_container_state_path env j) w
    unfolding launch
    read-launch ctx attach w = elim (Option-cases (container_exec fs k ctx w).0) [
      | inl e ↦ ground (arith, e, read-container_exec U ctx w)
      | inr (pid, e) ↦
          let w1 = (container_exec fs k ctx w).1 in
          ground (
            arith,
            e,
            read-container_exec U ctx w,
            read-save_ne js env F (as_running c pid) i (get_container_state_path env j) w1 named
                apart,
            read-attach_to pid (State.save fs js env (as_running c pid) w1).1,
          )
    ]

  -- `nk_container_start` of one container, whichever way it returns, changes nothing that
  -- `nk_state_load` returns for a container whose state file is another file. This is for a state
  -- file that names its own container, and where the calls on processes and pipes leave that other
  -- file as it is.
  pub load-start_other :
      (attach : Bool) (w : W) {r : Option ℕ} {w' : W}
      → ((c : Container) → State.load fs js env i w ≡ some c → c.id ≡ some i)
      → start fs js env k i attach w ≡ returned r w'
      → State.load fs js env j w' ≡ State.load fs js env j w
  unfolding start
  load-start_other attach w {r} {w'} named h = elim (Option-cases (prepare fs js env i w)) [
    | inl e ↦ ap (State.load fs js env j) (ground (arith, e))
    | inr (p, e) ↦ elim (Option-cases (context_of p)) [
      | inl f ↦ absurd (ground (arith, e, f))
      | inr (ctx, f) ↦
          let (loaded, state, mode) = prepare_stored fs js env i w {p = p} e in
          let last : (launch fs js env k p.stored ctx attach w).1 ≡ w' = ground (arith, e, f) in
          load_of_read js env F j w' w (
            ap (fs.read (get_container_state_path env j)) (sym last)
            ∙ read-launch p.stored (named p.stored loaded) ctx attach w)
    ]
  ]
