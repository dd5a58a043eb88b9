-- ===== src/Resources/Child.antt =====
-- src/container/process.c: the child of a container's start, up to its program, in the books of the
-- descriptors that it has.

use vibe_kata.Base.{
  Bool, ◌*◌, ◌≡◌, ◌∙◌, refl, Option, none, some, Option-cases, inl, inr, arith, if◌then◌else◌,
}
use vibe_kata.Base.Int.{ℤ}
use vibe_kata.Base.Bytes.{CString, bytes}
use vibe_kata.Files.{Files}
use vibe_kata.Container.Kernel.{Kernel}
use vibe_kata.Container.Context.{until_null}
use vibe_kata.Container.Mounts.{setup_rootfs}
use vibe_kata.Container.Namespaces.Join.{namespace_set_hostname}
use vibe_kata.Container.Limits.{process_drop_capabilities, process_set_rlimits}
use vibe_kata.Container.Process.{
  or_args, first, ExecContext, set_hostname, enter_cwd, run_program, container_child_fn,
}
use vibe_kata.Resources.{Books, KeepsBooks, opened, closed}
use vibe_kata.Resources.Mounts.{At-setup_rootfs}
use vibe_kata.Resources.Process.{closed_both_reversed}

module _ {W T : Type 0} {fs : Files W T} {k : Kernel W} {own : ℤ → Bool} {books : W → Books}
    (B : KeepsBooks own fs k books) where
  books-set_hostname : (e : ExecContext) (w : W) → books (set_hostname k e w) ≡ books w
  unfolding set_hostname namespace_set_hostname
  books-set_hostname e w = elim (Option-cases e.hostname) [
    | inl n ↦ ground (arith, n)
    | inr (name, n) ↦ ground (arith, n, B.books-sethostname name w)
  ]

  books-enter_cwd : (cwd : Option CString) (w : W) → books (enter_cwd k cwd w) ≡ books w
  unfolding enter_cwd
  books-enter_cwd none w = refl
  books-enter_cwd (some cwd) w =
      ground (arith, B.books-chdir cwd w, B.books-chdir (bytes "/") (k.chdir cwd w).1)

  books-run_program : (e : ExecContext) (w : W) → books (run_program k e w).1 ≡ books w
  unfolding run_program
  books-run_program e w =
      let args = or_args e.ctx.args in
      ground (arith, B.books-execve (first args) (until_null args) (until_null e.env) w)

  -- The child that is given the two ends of the pipe of its start has closed both when it ends or
  -- its program runs, and has otherwise the descriptors that it was given, also where the set-up of
  -- its root file system fails.
  pub books-container_child_fn :
      (e : ExecContext) (w : W) {b : Books}
      → books w ≡ opened e.fd_read (opened e.fd_write b)
      → books (container_child_fn fs k e w).1 ≡ b
  unfolding container_child_fn process_drop_capabilities process_set_rlimits
  books-container_child_fn e w {b} h =
      let w0 = k.close e.fd_read w in
      let w1 = set_hostname k e w0 in
      let w2 = (setup_rootfs fs k e.ctx w1).1 in
      let first : books w2 ≡ closed e.fd_read (books w) =
        (At-setup_rootfs B (closed e.fd_read (books w)) e.ctx).at w1
          (books-set_hostname e w0 ∙ B.books-close e.fd_read w) in
      let both = closed_both_reversed e.fd_read e.fd_write b in
      elim (Option-cases (setup_rootfs fs k e.ctx w1).0) [
        | inl failed ↦ ground (arith, failed, first, h, both, B.books-close e.fd_write w2)
        | inr (_, made) ↦
            let w3 = enter_cwd k e.ctx.cwd w2 in
            let w4 = (k.setrlimit_stack (8192 * 1024) w3).1 in
            let w5 = if e.ctx.terminal then w4 else (k.setsid w4).1 in
            ground (
              arith,
              made,
              first,
              h,
              both,
              books-enter_cwd e.ctx.cwd w2,
              B.books-setrlimit_stack (8192 * 1024) w3,
              B.books-setsid w4,
              B.books-close e.fd_write w5,
              books-run_program e (k.close e.fd_write w5),
            )
      ]
