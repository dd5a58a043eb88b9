-- ===== src/Resources/Process.antt =====
-- src/container/process.c and src/container/cgroups.c: the parent of a container's process, and the control
-- files.
use vibe_kata.Base.{
  Bool, ℕ, ◌≡◌, ◌∙◌, refl, ap, true, false, some, ◌==◌, Option-cases, Bool-cases, inl, inr, arith,
}
use vibe_kata.Base.Int.{ℤ, le_zero}
use vibe_kata.Base.Bytes.{CString}
use vibe_kata.Files.{Files}
use vibe_kata.Container.Kernel.{Kernel}
use vibe_kata.Container.Context.{Context}
use vibe_kata.Container.Cgroups.{write_control, cgroup_delete}
use vibe_kata.Container.Process.{
  container_exec, clone_child, await_child, container_signal, is_runnable, clone_flags,
  exec_context, container_child_fn,
}
use vibe_kata.Lifecycle.{is_pid_alive, stop_process}
use vibe_kata.Resources.{Books, KeepsBooks, opened, closed, used}

-- A descriptor that is opened and closed again leaves the books as they were.
pub closed-opened : (fd : ℕ) (b : Books) → closed fd (opened fd b) ≡ b
closed-opened fd b = let same : (fd == fd) ≡ true = ground arith in rw same refl

pub used-opened : (fd : ℕ) (b : Books) → used fd (opened fd b) ≡ opened fd b
used-opened fd b = let same : (fd == fd) ≡ true = ground arith in rw same refl

-- Of the two ends of a pipe one may be closed first.
closed_second : (r s : ℕ) (b : Books) → closed s (opened r (opened s b)) ≡ opened r b
closed_second r s b = elim (Bool-cases (r == s)) [
  | inl alike ↦ let one : r ≡ s = ground (arith, alike) in rw one (closed-opened s (opened s b))
  | inr differ ↦ let same : (s == s) ≡ true = ground arith in rw (differ, same) refl
]

pub closed_both_reversed : (r s : ℕ) (b : Books) → closed s (closed r (opened r (opened s b))) ≡ b
closed_both_reversed r s b = ap (closed s) (closed-opened r (opened s b)) ∙ closed-opened s b

module _ {W T : Type 0} {fs : Files W T} {k : Kernel W} {own : ℤ → Bool} {books : W → Books}
    (B : KeepsBooks own fs k books) where
  pub books-container_signal :
      (pid : ℤ) (sig : ℕ) (w : W)
      → le_zero pid ≡ false
      → own pid ≡ true
      → books (container_signal k pid sig w).1 ≡ books w
  unfolding container_signal
  books-container_signal pid sig w live mine = ground (arith, live, mine, B.books-kill pid sig w)

  pub books-is_pid_alive : (pid : ℤ) (w : W) → books (is_pid_alive k pid w).1 ≡ books w
  unfolding is_pid_alive
  books-is_pid_alive pid w = elim (Bool-cases (le_zero pid)) [
    | inl dead ↦ ground (arith, dead)
    | inr live ↦ ground (arith, live, B.books-kill pid 0 w)
  ]

  pub books-stop_process :
      (pid : ℤ) (w : W)
      → le_zero pid ≡ false
      → own pid ≡ true
      → books (stop_process k pid w) ≡ books w
  unfolding stop_process
  books-stop_process pid w live mine =
      let w1 = (container_signal k pid 15 w).1 in
      let w2 = k.usleep 100000 w1 in
      let w3 = (k.kill pid 0 w2).1 in
      ground (
        arith,
        live,
        books-container_signal pid 15 w live mine,
        B.books-usleep 100000 w1,
        B.books-kill pid 0 w2,
        books-container_signal pid 9 w3 live mine,
      )

  -- A file that is opened, written and closed.
  pub books_written :
      (path text : CString) (w : W) {fd : ℕ}
      → (k.open_fd path w).0 ≡ some fd
      → books (k.close fd (k.write fd text (k.open_fd path w).1).1) ≡ books w
  books_written path text w {fd} e =
      let w1 = (k.open_fd path w).1 in
      ground (
        arith,
        e,
        B.books-open_fd path w,
        B.books-write fd text w1,
        B.books-close fd (k.write fd text w1).1,
        used-opened fd (books w),
        closed-opened fd (books w),
      )

  pub books-write_control :
      (path text : CString) (w : W) → books (write_control k path text w).1 ≡ books w
  unfolding write_control
  books-write_control path text w = elim (Option-cases (k.open_fd path w).0) [
    | inl e ↦ ground (arith, e, B.books-open_fd path w)
    | inr (fd, e) ↦ ground (arith, e, books_written path text w e)
  ]

  pub books-cgroup_delete : (i : CString) (w : W) → books (cgroup_delete fs k i w).1 ≡ books w
  unfolding cgroup_delete
  books-cgroup_delete i w = B.books-rmdir _ _ ∙ books-write_control _ _ w

  books-await_child :
      (r s : ℕ) (pid : ℤ) (w : W) (b : Books)
      → books w ≡ opened r (opened s b)
      → books (await_child k r s pid w).1 ≡ b
  unfolding await_child
  books-await_child r s pid w b h =
      let w1 = (k.read_byte r (k.close s w)).1 in
      ground (
        arith,
        h,
        B.books-close s w,
        B.books-read_byte r (k.close s w),
        B.books-close r w1,
        B.books-waitpid pid (k.close r w1),
        closed_second r s b,
        used-opened r b,
        closed-opened r b,
      )

  books-clone_child :
      (ctx : Context) (r s : ℕ) (w : W) (b : Books)
      → books w ≡ opened r (opened s b)
      → books (clone_child fs k ctx (r, s) w).1 ≡ b
  unfolding clone_child
  books-clone_child ctx r s w b h =
      let child = container_child_fn fs k (exec_context ctx r s) in
      let w1 = (k.clone (clone_flags ctx) child w).1 in
      let kept = B.books-clone (clone_flags ctx) child w in
      elim (Option-cases (k.clone (clone_flags ctx) child w).0) [
        | inl e ↦ ground (
          arith,
          e,
          h,
          kept,
          B.books-close r w1,
          B.books-close s (k.close r w1),
          closed_both_reversed r s b,
        )
        | inr (pid, e) ↦ ground (arith, e, books-await_child r s pid w1 b (kept ∙ h))
      ]

  -- The parent closes both ends of the pipe, on every path.
  pub books-container_exec : (ctx : Context) (w : W) → books (container_exec fs k ctx w).1 ≡ books w
  unfolding container_exec
  books-container_exec ctx w = elim (Bool-cases (is_runnable ctx)) [
    | inr cannot ↦ ground (arith, cannot)
    | inl can ↦ elim (Option-cases (k.pipe w).0) [
      | inl e ↦ ground (arith, can, e, B.books-pipe w)
      | inr ((r, s), e) ↦
          let piped : books (k.pipe w).1 ≡ opened r (opened s (books w)) =
            ground (arith, e, B.books-pipe w) in
          ground (arith, can, e, books-clone_child ctx r s (k.pipe w).1 (books w) piped)
    ]
  ]
