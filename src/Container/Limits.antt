-- ===== src/Container/Limits.antt =====
-- src/container/process.c: what a process gives up before it executes the program of a container. Built
-- without libcap-ng, so that no capability is dropped. What the code prints is left out.
use vibe_kata.Base.{ℕ, ◌*◌, none, some}
use vibe_kata.Effects.{M, pure}
use vibe_kata.Container.Kernel.{Kernel}

module _ {W : Type 0} (k : Kernel W) where
  unfoldable pub process_drop_capabilities : M W (Unit {0})
  process_drop_capabilities = pure tt

  -- The limit of the stack is set to 8 MB; a failure is only warned of.
  unfoldable pub process_set_rlimits : M W (Unit {0})
  process_set_rlimits w = (some tt, (k.setrlimit_stack (8192 * 1024) w).1)

  unfoldable pub process_set_uid_gid : ℕ → ℕ → M W (Unit {0})
  process_set_uid_gid uid gid w =
      let (e, w1) = k.setgid gid w in
      elim e [
        | some _ ↦ (none, w1)
        | none ↦
            let (e2, w2) = k.setuid uid w1 in elim e2 [ none ↦ (some tt, w2) | some _ ↦ (none, w2) ]
      ]
