-- ===== src/Lifecycle/Cases.antt =====
-- The worlds that the branches of `nk_container_start` and `nk_container_resume` end in.
use vibe_kata.Base.{
  ◌≡◌, ◌≢◌, Bool, true, false, Bool-cases, Option, none, some, Option-cases, inl, inr, ◌⊎◌, arith,
  ℕ,
}
use vibe_kata.Base.Int.{ℤ}
use vibe_kata.Base.Bytes.{CString, bytes}
use vibe_kata.Files.{Files}
use vibe_kata.Jansson.{Jansson}
use vibe_kata.Types.{stopped, Container}
use vibe_kata.State
use vibe_kata.State.{Env, get_container_state_path}
use vibe_kata.Container.Kernel.{Kernel}
use vibe_kata.Container.Context.{Context}
use vibe_kata.Lifecycle.Defs.{as_stopped}
use vibe_kata.Lifecycle.Context.{Prepared, context_of}
use vibe_kata.Lifecycle.Start.{returned, prepare, launch, start}
use vibe_kata.Lifecycle.Running.{
  has_process, is_pid_alive, nsenter_argv, update_stopped_state_if_dead, run_nsenter, resume_live,
  resume,
}

pub running_of : (c : Container) → has_process c ≡ true → c.state ≢ stopped
running_of c h e = ground arith

module _ {W J T : Type 0} (fs : Files W T) (js : Jansson J T) (env : Env) (k : Kernel W) where
  -- A start that returns ends in the world of its launch, or where it began.
  pub start_cases :
      (i : CString) (attach : Bool) (w : W) {r : Option ℕ} {w' : W}
      → start fs js env k i attach w ≡ returned r w'
      → (w ≡ w')
        ⊎ ((p : Prepared) × (ctx : Context) × (prepare fs js env i w ≡ some p)
            × (context_of p ≡ some ctx)
            × ((launch fs js env k p.stored ctx attach w).1 ≡ w'))
  unfolding start
  start_cases i attach w h = elim (Option-cases (prepare fs js env i w)) [
    | inl e ↦ inl (ground (arith, e))
    | inr (p, e) ↦ elim (Option-cases (context_of p)) [
      | inl f ↦ absurd (ground (arith, e, f))
      | inr (ctx, f) ↦ inr (p, ctx, e, f, ground (arith, e, f))
    ]
  ]

  -- The worlds that `update_stopped_state_if_dead` and `nk_container_resume` end in.
  pub update_cases :
      (c : Container) (w : W)
      → has_process c ≡ true
      → let (alive, w1) = is_pid_alive k c.init_pid w in
        (update_stopped_state_if_dead fs js env k c w ≡ w1)
        ⊎ ((alive ≡ false)
            × (update_stopped_state_if_dead fs js env k c w
                ≡ (State.save fs js env (as_stopped c) w1).1))
  unfolding update_stopped_state_if_dead
  update_cases c w live = elim (Bool-cases (is_pid_alive k c.init_pid w).0) [
    | inl yes_alive ↦ inl (ground (arith, live, yes_alive))
    | inr dead ↦ inr (dead, ground (arith, live, dead))
  ]

  pub run_nsenter_cases :
      (c : Container) (cmd : Option CString) (w : W)
      → let forked = k.fork_execvp (bytes "nsenter") (nsenter_argv c.init_pid cmd) w in
        ((run_nsenter fs js env k c cmd w).1 ≡ forked.1)
        ⊎ ((child : ℤ) × (forked.0 ≡ some child)
            × (let w1 = (k.waitpid child forked.1).1 in
                ((run_nsenter fs js env k c cmd w).1 ≡ w1)
                ⊎ ((run_nsenter fs js env k c cmd w).1
                    ≡ update_stopped_state_if_dead fs js env k c w1)))
  unfolding run_nsenter
  run_nsenter_cases c cmd w =
      let forked = k.fork_execvp (bytes "nsenter") (nsenter_argv c.init_pid cmd) w in
      elim (Option-cases forked.0) [
        | inl e ↦ inl (ground (arith, e))
        | inr (child, e) ↦ elim (Option-cases (k.waitpid child forked.1).0) [
          | inl q ↦ inr (child, e, inl (ground (arith, e, q)))
          | inr (status, q) ↦ inr (child, e, inr (ground (arith, e, q)))
        ]
      ]

  pub resume_cases :
      (i : CString) (cmd : Option CString) (w : W) (c : Container)
      → State.load fs js env i w ≡ some c
      → has_process c ≡ true
      → let w1 = (is_pid_alive k c.init_pid w).1 in
        ((resume fs js env k i cmd w).1 ≡ w1)
        ⊎ ((resume fs js env k i cmd w).1 ≡ (run_nsenter fs js env k c cmd w1).1)
        ⊎ ((resume fs js env k i cmd w).1 ≡ update_stopped_state_if_dead fs js env k c w1)
  unfolding resume resume_live
  resume_cases i cmd w c loaded live =
      let (alive, w1) = is_pid_alive k c.init_pid w in
      elim (Bool-cases alive) [
        | inl yes_alive ↦ elim (Bool-cases (k.readable (bytes "/proc/self/ns/pid") w1)) [
          | inl can ↦ inr (inl (ground (arith, loaded, live, yes_alive, can)))
          | inr cannot ↦ inl (ground (arith, loaded, live, yes_alive, cannot))
        ]
        | inr dead ↦ inr (inr (ground (arith, loaded, live, dead)))
      ]

  pub resume_of_missing :
      (i : CString) (cmd : Option CString) (w : W)
      → State.load fs js env i w ≡ none
      → resume fs js env k i cmd w ≡ (none, w)
  unfolding resume
  resume_of_missing i cmd w e = ground (arith, e)

  pub resume_of_idle :
      (i : CString) (cmd : Option CString) (w : W) (c : Container)
      → State.load fs js env i w ≡ some c
      → has_process c ≡ false
      → resume fs js env k i cmd w ≡ (none, w)
  unfolding resume
  resume_of_idle i cmd w c e idle = ground (arith, e, idle)
