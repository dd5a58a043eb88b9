-- ===== src/Lifecycle/Started.antt =====
-- What `nk_container_start` does on each branch.
use vibe_kata.Base.{
  ◌≡◌, ◌≢◌, Bool, true, none, some, Option-cases, inl, inr, ◌⊎◌, arith, is_some, ℕ, refl, subst,
  ◌+◌,
}
use vibe_kata.Base.Int.{ℤ, pos, IsInt32}
use vibe_kata.Base.Bytes.{CString}
use vibe_kata.Files
use vibe_kata.Files.{Files}
use vibe_kata.Jansson
use vibe_kata.Jansson.{Jansson}
use vibe_kata.Types.{created, stopped, ContainerState, Container, container, invalid}
use vibe_kata.State
use vibe_kata.State.{Env, get_container_state_path}
use vibe_kata.State.Saved.{Saved}
use vibe_kata.State.Loaded.{load-IsLoaded, load-save_updated}
use vibe_kata.Container.Kernel.{Kernel, WaitStatus, exit_status, term_signal, other_status}
use vibe_kata.Container.Context.{Context}
use vibe_kata.Container.Process.{container_exec, container_wait}
use vibe_kata.Lifecycle.Defs.{as_running, as_stopped}
use vibe_kata.Lifecycle.Context.{Prepared, context_of}
use vibe_kata.Lifecycle.Start.{returned, prepare, launch, attach_to, start, exit_code_of}
use vibe_kata.Lifecycle.Checked.{prepare_stored, start_parts}

module _ {W J T : Type 0} (fs : Files W T) (js : Jansson J T) (env : Env) where
  -- `nk_container_start` fails and changes nothing, unless the container is stored as created and
  -- its mode is that of containers.
  pub start_refused :
      (k : Kernel W) (i : CString) (attach : Bool) (w : W)
      → ((c : Container)
          → State.load fs js env i w ≡ some c
          → (c.state ≢ created) ⊎ (c.mode ≢ container))
      → start fs js env k i attach w ≡ returned none w
  unfolding start
  start_refused k i attach w bad = elim (Option-cases (prepare fs js env i w)) [
    | inl e ↦ ground (arith, e)
    | inr (p, e) ↦
        let (loaded, state, mode) = prepare_stored fs js env i w {p = p} e in
        elim (bad p.stored loaded) [ inl h ↦ absurd (h state) | inr h ↦ absurd (h mode) ]
  ]

-- What the shell gives for a status: the exit code, or 128 and the signal.
abbrev pub HasCode : WaitStatus → ℕ → Type 0
HasCode (exit_status m) n = n ≡ m
HasCode (term_signal s) n = n ≡ 128 + s
HasCode other_status n = n ≡ 0

exit_code_of-HasCode : (status : WaitStatus) → HasCode status (exit_code_of status)
unfolding exit_code_of
exit_code_of-HasCode (exit_status m) = refl
exit_code_of-HasCode (term_signal s) = refl
exit_code_of-HasCode other_status = refl

module _ {W J T : Type 0} {fs : Files W T} {js : Jansson J T} (env : Env) (k : Kernel W)
    {same : CString → CString → Bool} (F : Files.IsLawful fs same) (L : Jansson.IsLawful js) where
  pub load-save_held :
      (i : CString) (w v : W) (c : Container) (s : ContainerState) (pid : ℤ)
      → State.load fs js env i w ≡ some c
      → c.id ≡ some i
      → is_some (js.string i) ≡ true
      → s ≢ invalid
      → IsInt32 pid
      → Saved fs js env (record c { state = s; init_pid = pid }) v
      → State.load fs js env i (State.save fs js env (record c { state = s; init_pid = pid }) v).1
        ≡ some (record c { state = s; init_pid = pid })
  load-save_held i w v c s pid loaded =
      load-save_updated env F L c i s pid v (load-IsLoaded fs env L i w loaded)

  attach_to_parts :
      (c : Container) (pid : ℤ) (w : W) {n : ℕ} {w' : W}
      → attach_to fs js env k c pid w ≡ (some n, w')
      → (status : WaitStatus) × ((container_wait k pid w).0 ≡ some status)
        × HasCode status n
        × (w' ≡ (State.save fs js env (as_stopped c) (container_wait k pid w).1).1)
  unfolding attach_to
  attach_to_parts c pid w {n} {w'} h = elim (Option-cases (container_wait k pid w).0) [
    | inl e ↦ absurd (ground (arith, e))
    | inr (status, e) ↦ (
      status,
      e,
      subst (HasCode status) (ground (arith, e)) (exit_code_of-HasCode status),
      ground (arith, e),
    )
  ]

  launch_attached :
      (c : Container) (ctx : Context) (w : W) {n : ℕ} {w' : W}
      → launch fs js env k c ctx true w ≡ (some n, w')
      → (pid : ℤ) × ((container_exec fs k ctx w).0 ≡ some pid)
        × (attach_to fs js env k c pid
              (State.save fs js env (as_running c pid) (container_exec fs k ctx w).1).1
            ≡ (some n, w'))
  unfolding launch
  launch_attached c ctx w {n} {w'} h = elim (Option-cases (container_exec fs k ctx w).0) [
    | inl e ↦ absurd (ground (arith, e))
    | inr (pid, e) ↦ (pid, e, ground (arith, e))
  ]

  module _ (i : CString) (w : W) (encodes : is_some (js.string i) ≡ true)
      (named : (c : Container) → State.load fs js env i w ≡ some c → c.id ≡ some i) where
    -- An attached start that returns 0 has found the container stored as created, has got its
    -- process from `nk_container_exec` and has waited for it, and gives, for the status of that
    -- wait, its exit code, 128 more than its signal, or 0 where it is neither. Where the state is
    -- stored after the wait, `fclose` included, the container is loaded as stopped with no process
    -- and is the same otherwise. This is for a state file that names its own container and an id
    -- that is valid UTF-8.
    pub start_attached :
        {n : ℕ} {w' : W}
        → start fs js env k i true w ≡ returned (some n) w'
        → (p : Prepared) × (ctx : Context) × (pid : ℤ) × (status : WaitStatus) × (State.load fs js
              env i w
            ≡ some p.stored)
          × (p.stored.state ≡ created)
          × (context_of p ≡ some ctx)
          × ((container_exec fs k ctx w).0 ≡ some pid)
          × (let v =
                (State.save fs js env (as_running p.stored pid) (container_exec fs k ctx w).1).1 in
              ((container_wait k pid v).0 ≡ some status)
              × HasCode status n
              × (Saved fs js env (as_stopped p.stored) (container_wait k pid v).1
                  → State.load fs js env i w' ≡ some (as_stopped p.stored)))
    start_attached {n} {w'} h =
        let (p, ctx, prepared, built, launched) =
          start_parts fs js env k i true w {n = n} {w' = w'} h in
        let (loaded, state, mode) = prepare_stored fs js env i w {p = p} prepared in
        let (pid, run, attached) = launch_attached p.stored ctx w {n = n} {w' = w'} launched in
        let v = (State.save fs js env (as_running p.stored pid) (container_exec fs k ctx w).1).1 in
        let (status, waited, code, last) =
          attach_to_parts p.stored pid v {n = n} {w' = w'} attached in
        (
          p,
          ctx,
          pid,
          status,
          loaded,
          state,
          built,
          run,
          (
            waited,
            code,
            λ saved. rw last (
                load-save_held i w _ p.stored stopped (pos 0) loaded (named p.stored loaded) encodes
                  (ground arith) (omega arith) saved),
          ),
        )
