-- ===== src/Resources/Commands.antt =====
-- The commands of src/main.c, in the books of what they open and whom they signal.
use vibe_kata.Base.{
  ℕ, ◌≡◌, refl, sym, ◌∙◌, ap, Bool, true, false, Option, some, Option-cases, Bool-cases, inl, inr,
  arith, if◌then◌else◌,
}
use vibe_kata.Base.Int.{ℤ, le_zero}
use vibe_kata.Base.Bytes.{CString, bytes}
use vibe_kata.Files.{Files}
use vibe_kata.Jansson.{Jansson}
use vibe_kata.Types.{Container}
use vibe_kata.State
use vibe_kata.State.{Env}
use vibe_kata.Container.Kernel.{Kernel}
use vibe_kata.Container.Context.{Context}
use vibe_kata.Container.Cgroups.{cgroup_cleanup}
use vibe_kata.Container.Process.{container_exec, container_wait}
use vibe_kata.Lifecycle.{
  returned, as_running, as_stopped, attach_to, launch, start, has_process, nsenter_argv,
  update_stopped_state_if_dead, run_nsenter, resume, stop_process, delete,
}
use vibe_kata.Lifecycle.Cases.{
  start_cases, update_cases, run_nsenter_cases, resume_cases, resume_of_missing, resume_of_idle,
}
use vibe_kata.Resources.{Books, KeepsBooks}
use vibe_kata.Resources.State.{At-save, At-delete}
use vibe_kata.Resources.Process.{
  books-is_pid_alive, books-stop_process, books-cgroup_delete, books-container_exec,
}

has_process-live : (c : Container) → has_process c ≡ true → le_zero c.init_pid ≡ false
has_process-live c h = ground arith

-- The process that the state file of the container holds may be sent signals.
abbrev pub Owns :
    {W J T : Type 0} (own : ℤ → Bool) (fs : Files W T) (js : Jansson J T) (env : Env) (i : CString)
    (w : W)
    → Type 0
Owns own fs js env i w =
    (c : Container)
    → State.load fs js env i w ≡ some c
    → has_process c ≡ true
    → own c.init_pid ≡ true

module _ {W J T : Type 0} {fs : Files W T} {k : Kernel W} {own : ℤ → Bool} {books : W → Books}
    (B : KeepsBooks own fs k books) (js : Jansson J T) (env : Env) where
  books-save : (c : Container) (w : W) → books (State.save fs js env c w).1 ≡ books w
  books-save c w = (At-save B (books w) js env c).at w refl

  books-attach_to :
      (c : Container) (pid : ℤ) (w : W) → books (attach_to fs js env k c pid w).1 ≡ books w
  unfolding attach_to container_wait
  books-attach_to c pid w =
      ground (arith, B.books-waitpid pid w, books-save (as_stopped c) (k.waitpid pid w).1)

  books-launch :
      (c : Container) (ctx : Context) (attach : Bool) (w : W)
      → books (launch fs js env k c ctx attach w).1 ≡ books w
  unfolding launch
  books-launch c ctx attach w =
      let kept = books-container_exec B ctx w in
      let w1 = (container_exec fs k ctx w).1 in
      elim (Option-cases (container_exec fs k ctx w).0) [
        | inl e ↦ ground (arith, e, kept)
        | inr (pid, e) ↦
            let w2 = (State.save fs js env (as_running c pid) w1).1 in
            ground (arith, e, kept, books-save (as_running c pid) w1, books-attach_to c pid w2)
      ]

  pub books-start :
      (i : CString) (attach : Bool) (w : W) {r : Option ℕ} {w' : W}
      → start fs js env k i attach w ≡ returned r w'
      → books w' ≡ books w
  books-start i attach w {r} {w'} h =
      elim (start_cases fs js env k i attach w {r = r} {w' = w'} h) [
        | inl same ↦ ap books (sym same)
        | inr (p, ctx, _, _, last) ↦ ap books (sym last) ∙ books-launch p.stored ctx attach w
      ]

  books-update :
      (c : Container) (w : W)
      → has_process c ≡ true
      → books (update_stopped_state_if_dead fs js env k c w) ≡ books w
  books-update c w live = elim (update_cases fs js env k c w live) [
    | inl q ↦ rw q (books-is_pid_alive B c.init_pid w)
    | inr (dead, q) ↦ rw q (books-save (as_stopped c) _ ∙ books-is_pid_alive B c.init_pid w)
  ]

  books-run_nsenter :
      (c : Container) (cmd : Option CString) (w : W)
      → has_process c ≡ true
      → books (run_nsenter fs js env k c cmd w).1 ≡ books w
  books-run_nsenter c cmd w live =
      let argv = nsenter_argv c.init_pid cmd in
      let w1 = (k.fork_execvp (bytes "nsenter") argv w).1 in
      let forked : books w1 ≡ books w = B.books-fork_execvp (bytes "nsenter") argv w in
      elim (run_nsenter_cases fs js env k c cmd w) [
        | inl f ↦ rw f forked
        | inr (child, e, inl f) ↦ rw f (B.books-waitpid child w1 ∙ forked)
        | inr (child, e, inr f) ↦ rw f (books-update c _ live ∙ B.books-waitpid child w1 ∙ forked)
      ]

  pub books-resume :
      (i : CString) (cmd : Option CString) (w : W) → books (resume fs js env k i cmd w).1 ≡ books w
  books-resume i cmd w = elim (Option-cases (State.load fs js env i w)) [
    | inl e ↦ ap (λ (r : Option ℕ × W). books r.1) (resume_of_missing fs js env k i cmd w e)
    | inr (c, e) ↦ elim (Bool-cases (has_process c)) [
      | inr idle ↦
          ap (λ (r : Option ℕ × W). books r.1) (resume_of_idle fs js env k i cmd w c e idle)
      | inl live ↦
          let alive = books-is_pid_alive B c.init_pid w in
          elim (resume_cases fs js env k i cmd w c e live) [
            | inl q ↦ rw q alive
            | inr (inl q) ↦ rw q (books-run_nsenter c cmd _ live ∙ alive)
            | inr (inr q) ↦ rw q (books-update c _ live ∙ alive)
          ]
    ]
  ]

  books-stop_if_running :
      (c : Container) (w : W)
      → (has_process c ≡ true → own c.init_pid ≡ true)
      → books (if has_process c then stop_process k c.init_pid w else w) ≡ books w
  books-stop_if_running c w mine = elim (Bool-cases (has_process c)) [
    | inl live ↦ rw live (books-stop_process B c.init_pid w (has_process-live c live) (mine live))
    | inr idle ↦ rw idle refl
  ]

  pub books-delete :
      (i : CString) (w : W) → Owns own fs js env i w → books (delete fs js env k i w).1 ≡ books w
  unfolding delete
  books-delete i w mine = elim (Option-cases (State.load fs js env i w)) [
    | inl e ↦ ground (arith, e)
    | inr (c, e) ↦
        let w1 = if has_process c then stop_process k c.init_pid w else w in
        let w2 = (cgroup_cleanup fs k (some i) w1).1 in
        ground (
          arith,
          e,
          books-stop_if_running c w (mine c e),
          books-cgroup_delete B i w1,
          (At-delete B (books w2) js env i).at w2 refl,
        )
  ]
