-- ===== src/Lifecycle/Frame.antt =====
-- What the commands leave of the containers that they do not name.
use vibe_kata.Base.{
  ◌≡◌, refl, ◌∙◌, Bool, false, Bool-cases, none, Option-cases, inl, inr, arith, if◌then◌else◌, ℕ,
  List,
}
use vibe_kata.Base.Int.{ℤ}
use vibe_kata.Base.Bytes.{CString}
use vibe_kata.Files
use vibe_kata.Files.{Files}
use vibe_kata.Jansson.{Jansson}
use vibe_kata.Types.{Options}
use vibe_kata.State
use vibe_kata.State.{Env, get_container_state_path}
use vibe_kata.State.Frame.{read-save_ne}
use vibe_kata.Container.Kernel.{Kernel, ChildRun}
use vibe_kata.Container.Context.{Context}
use vibe_kata.Container.Cgroups.{cgroup_delete, write_control}
use vibe_kata.Container.Process.{
  await_child, clone_child, container_exec, container_signal, is_runnable, clone_flags,
  container_child_fn, exec_context,
}
use vibe_kata.Lifecycle.Defs.{create_new, new_container}
use vibe_kata.Lifecycle.Ended.{delete_of_loaded}
use vibe_kata.Lifecycle.Running.{is_pid_alive, has_process, stop_process, delete}

-- The calls on processes, on pipes and on control files leave the contents of a file as they are.
pub record Undisturbed {W T : Type 0} (fs : Files W T) (k : Kernel W) (q : CString) : Type 0 where
  pub read-kill : (pid : ℤ) (sig : ℕ) (w : W) → fs.read q (k.kill pid sig w).1 ≡ fs.read q w
  pub read-usleep : (time : ℕ) (w : W) → fs.read q (k.usleep time w) ≡ fs.read q w
  pub read-open_fd : (path : CString) (w : W) → fs.read q (k.open_fd path w).1 ≡ fs.read q w
  pub read-write : (fd : ℕ) (text : CString) (w : W) → fs.read q (k.write fd text w).1 ≡ fs.read q w
  pub read-close : (fd : ℕ) (w : W) → fs.read q (k.close fd w) ≡ fs.read q w
  pub read-pipe : (w : W) → fs.read q (k.pipe w).1 ≡ fs.read q w
  pub read-read_byte : (fd : ℕ) (w : W) → fs.read q (k.read_byte fd w).1 ≡ fs.read q w
  pub read-clone :
      (flags : ℕ) (child : W → ChildRun × W) (w : W)
      → fs.read q (k.clone flags child w).1 ≡ fs.read q w
  pub read-fork_execvp :
      (path : CString) (argv : List CString) (w : W)
      → fs.read q (k.fork_execvp path argv w).1 ≡ fs.read q w
  pub read-waitpid : (pid : ℤ) (w : W) → fs.read q (k.waitpid pid w).1 ≡ fs.read q w

module _ {W J T : Type 0} (fs : Files W T) (js : Jansson J T) (env : Env) (k : Kernel W) where
  pub delete_of_missing :
      (i : CString) (w : W) → State.load fs js env i w ≡ none → delete fs js env k i w ≡ (none, w)
  unfolding delete
  delete_of_missing i w e = ground (arith, e)

module _ {W T : Type 0} {fs : Files W T} {k : Kernel W} {q : CString} (U : Undisturbed fs k q) where
  read-container_signal :
      (pid : ℤ) (sig : ℕ) (w : W) → fs.read q (container_signal k pid sig w).1 ≡ fs.read q w
  unfolding container_signal
  read-container_signal pid sig w = ground (arith, U.read-kill pid sig w)

  pub read-is_pid_alive : (pid : ℤ) (w : W) → fs.read q (is_pid_alive k pid w).1 ≡ fs.read q w
  unfolding is_pid_alive
  read-is_pid_alive pid w = ground (arith, U.read-kill pid 0 w)

  read-stop_process : (pid : ℤ) (w : W) → fs.read q (stop_process k pid w) ≡ fs.read q w
  unfolding stop_process
  read-stop_process pid w =
      let w1 = (container_signal k pid 15 w).1 in
      let w2 = k.usleep 100000 w1 in
      let w3 = (k.kill pid 0 w2).1 in
      ground (
        arith,
        read-container_signal pid 15 w,
        U.read-usleep 100000 w1,
        U.read-kill pid 0 w2,
        read-container_signal pid 9 w3,
      )

  read-write_control :
      (path text : CString) (w : W) → fs.read q (write_control k path text w).1 ≡ fs.read q w
  unfolding write_control
  read-write_control path text w = elim (Option-cases (k.open_fd path w).0) [
    | inl e ↦ ground (arith, e, U.read-open_fd path w)
    | inr (fd, e) ↦
        let w1 = (k.open_fd path w).1 in
        ground (
          arith,
          e,
          U.read-open_fd path w,
          U.read-write fd text w1,
          U.read-close fd (k.write fd text w1).1,
        )
  ]

  read-await_child :
      (fd_read fd_write : ℕ) (pid : ℤ) (w : W)
      → fs.read q (await_child k fd_read fd_write pid w).1 ≡ fs.read q w
  unfolding await_child
  read-await_child fd_read fd_write pid w =
      let w1 = (k.read_byte fd_read (k.close fd_write w)).1 in
      ground (
        arith,
        U.read-close fd_write w,
        U.read-read_byte fd_read (k.close fd_write w),
        U.read-close fd_read w1,
        U.read-waitpid pid (k.close fd_read w1),
      )

  read-clone_child :
      (ctx : Context) (fds : ℕ × ℕ) (w : W) → fs.read q (clone_child fs k ctx fds w).1 ≡ fs.read q w
  unfolding clone_child
  read-clone_child ctx (fd_read, fd_write) w =
      let child = container_child_fn fs k (exec_context ctx fd_read fd_write) in
      let w1 = (k.clone (clone_flags ctx) child w).1 in
      elim (Option-cases (k.clone (clone_flags ctx) child w).0) [
        | inl e ↦ ground (
          arith,
          e,
          U.read-clone (clone_flags ctx) child w,
          U.read-close fd_read w1,
          U.read-close fd_write (k.close fd_read w1),
        )
        | inr (pid, e) ↦ ground (
          arith,
          e,
          U.read-clone (clone_flags ctx) child w,
          read-await_child fd_read fd_write pid w1,
        )
      ]

  -- Starting a process changes the contents of no state file.
  pub read-container_exec :
      (ctx : Context) (w : W) → fs.read q (container_exec fs k ctx w).1 ≡ fs.read q w
  unfolding container_exec
  read-container_exec ctx w = elim (Bool-cases (is_runnable ctx)) [
    | inl can ↦ elim (Option-cases (k.pipe w).0) [
      | inl e ↦ ground (arith, can, e, U.read-pipe w)
      | inr (fds, e) ↦ ground (arith, can, e, U.read-pipe w, read-clone_child ctx fds (k.pipe w).1)
    ]
    | inr cannot ↦ ground (arith, cannot)
  ]

  module _ {same : CString → CString → Bool} (F : Files.IsLawful fs same) where
    read-cgroup_delete : (i : CString) (w : W) → fs.read q (cgroup_delete fs k i w).1 ≡ fs.read q w
    unfolding cgroup_delete
    read-cgroup_delete i w = F.read-rmdir _ _ _ ∙ read-write_control _ _ w

    module _ {J : Type 0} (js : Jansson J T) (env : Env) (i : CString) (w : W)
        (apart : same (get_container_state_path env i) q ≡ false) where
      pub read-delete : fs.read q (delete fs js env k i w).1 ≡ fs.read q w
      unfolding State.delete
      read-delete = elim (Option-cases (State.load fs js env i w)) [
        | inl e ↦ rw (delete_of_missing fs js env k i w e) refl
        | inr (c, e) ↦
            let w1 = if has_process c then stop_process k c.init_pid w else w in
            let stopped : fs.read q w1 ≡ fs.read q w =
              ground (arith, read-stop_process c.init_pid w) in
            rw (delete_of_loaded fs js env k i w c e)
              (F.read-rmdir _ _ _ ∙ F.read-unlink _ _ _ apart ∙ read-cgroup_delete i w1 ∙ stopped)
      ]

module _ {W J T : Type 0} {fs : Files W T} (js : Jansson J T) (env : Env)
    {same : CString → CString → Bool} (F : Files.IsLawful fs same) where
  pub read-create_new :
      (opts : Options) (i q : CString) (w : W)
      → same (get_container_state_path env i) q ≡ false
      → fs.read q (create_new fs js env opts i w).1 ≡ fs.read q w
  unfolding create_new new_container
  read-create_new opts i q w apart =
      ground (arith, read-save_ne js env F (new_container opts i) i q w refl apart)
