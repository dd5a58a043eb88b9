-- ===== src/Container/Process/Handshake.antt =====
-- What the parent knows of the child once `nk_container_exec` has returned.
use vibe_kata.Base.{ℕ, ◌≡◌, Bool-cases, some, Option-cases, inl, inr, arith}
use vibe_kata.Base.Int.{ℤ}
use vibe_kata.Files.{Files}
use vibe_kata.Container.Kernel.{Kernel, ChildRun}
use vibe_kata.Container.Context.{Context}
use vibe_kata.Container.Process.{
  container_child_fn, child_sync_ready, clone_flags, exec_context, await_child, clone_child,
  is_runnable, container_exec,
}

module _ {W T : Type 0} (fs : Files W T) (k : Kernel W) where
  await_child_ready :
      (fd_read fd_write : ℕ) (pid : ℤ) (w : W) {q : ℤ}
      → (await_child k fd_read fd_write pid w).0 ≡ some q
      → ((k.read_byte fd_read (k.close fd_write w)).0 ≡ some child_sync_ready) × (q ≡ pid)
  unfolding await_child
  await_child_ready fd_read fd_write pid w h = ground arith

  -- The child that is started for a context and the ends of its pipe.
  abbrev pub child_of : Context → ℕ × ℕ → W → ChildRun × W
  child_of ctx (fd_read, fd_write) = container_child_fn fs k (exec_context ctx fd_read fd_write)

  clone_child_cloned :
      (ctx : Context) (fds : ℕ × ℕ) (w : W) {pid : ℤ}
      → (clone_child fs k ctx fds w).0 ≡ some pid
      → (k.clone (clone_flags ctx) (child_of ctx fds) w).0 ≡ some pid
  unfolding clone_child exec_context
  clone_child_cloned ctx (fd_read, fd_write) w {pid} h =
      let cloned = k.clone (clone_flags ctx) (child_of ctx (fd_read, fd_write)) w in
      elim (Option-cases cloned.0) [
        | inl failed ↦ absurd (ground (arith, failed))
        | inr (p, made) ↦
            let (sent, same) =
              await_child_ready fd_read fd_write p cloned.1 {q = pid} (ground (arith, made)) in
            ground (arith, made, same)
      ]

  -- A process id that `nk_container_exec` returns is one that `clone` has returned.
  pub container_exec_cloned :
      (ctx : Context) (w : W) {pid : ℤ}
      → (container_exec fs k ctx w).0 ≡ some pid
      → (fds : ℕ × ℕ) × ((k.clone (clone_flags ctx) (child_of ctx fds) (k.pipe w).1).0 ≡ some pid)
  unfolding container_exec
  container_exec_cloned ctx w {pid} h = elim (Bool-cases (is_runnable ctx)) [
    | inl can ↦ elim (Option-cases (k.pipe w).0) [
      | inl failed ↦ absurd (ground (arith, can, failed))
      | inr (fds, piped) ↦
          (fds, clone_child_cloned ctx fds (k.pipe w).1 {pid = pid} (ground (arith, can, piped)))
    ]
    | inr cannot ↦ absurd (ground (arith, cannot))
  ]
