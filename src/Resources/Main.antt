-- ===== src/Resources/Main.antt =====
-- The dispatch of src/main.c, in the books of what it opens and whom it signals.
use vibe_kata.Base.{
  ℕ, ◌≡◌, refl, ◌∙◌, Bool, true, Option, none, some, Option-cases, Bool-cases, inl, inr, arith,
  zero, suc, [], ◌∷◌, ◌++◌,
}
use vibe_kata.Base.Int.{ℤ}
use vibe_kata.Base.Bytes.{CString, bytes, str_eq}
use vibe_kata.Base.Decimal.{decimal_int}
use vibe_kata.Files.{Files}
use vibe_kata.Jansson.{Jansson}
use vibe_kata.Types.{Options}
use vibe_kata.State
use vibe_kata.State.{Env}
use vibe_kata.Container.Kernel.{Kernel}
use vibe_kata.Lifecycle.{
  Outcome, crashed, returned, start, create, finish_run, run, write_container_pid_file,
  write_pid_if_detached, finish_start, finish_run_command, main_command, renamed,
}
use vibe_kata.Resources.{Books, KeepsBooks}
use vibe_kata.Lifecycle.Exits.{renamed_of}
use vibe_kata.Resources.State.{At-create}
use vibe_kata.Resources.Commands.{Owns, books-start, books-resume, books-delete}

-- The process of the container may be sent signals where a command deletes: at once, or after a run with
-- `--rm`.
abbrev pub OwnsDeleted :
    {W J T : Type 0} (own : ℤ → Bool) (fs : Files W T) (js : Jansson J T) (env : Env) (k : Kernel W)
    (opts : Options) (i : CString) (w : W)
    → Type 0
OwnsDeleted {W} own fs js env k opts i w =
    (opts.command ≡ bytes "delete" → Owns own fs js env i w)
    × (opts.command ≡ bytes "run"
        → opts.rm ≡ true
        → (s : Option ℕ) (v : W)
        → start fs js env k i opts.attach (create fs js env opts i w).1 ≡ returned s v
        → Owns own fs js env i v)

module _ {W J T : Type 0} {fs : Files W T} {k : Kernel W} {own : ℤ → Bool} {books : W → Books}
    (B : KeepsBooks own fs k books) (js : Jansson J T) (env : Env) where
  books-finish_run :
      (opts : Options) (i : CString) (o : Outcome W ℕ) {b : Books} {r : Option ℕ} {w' : W}
      → ((s : Option ℕ) (v : W) → o ≡ returned s v → books v ≡ b)
      → (opts.rm ≡ true → (s : Option ℕ) (v : W) → o ≡ returned s v → Owns own fs js env i v)
      → finish_run fs js env k opts i o ≡ returned r w'
      → books w' ≡ b
  unfolding finish_run
  books-finish_run opts i crashed kept mine h = cc
  books-finish_run opts i (returned none v) kept mine h = elim (Bool-cases opts.rm) [
    | inl rm ↦
        ground (arith, h, rm, kept none v refl, books-delete B js env i v (mine rm none v refl))
    | inr stays ↦ ground (arith, h, stays, kept none v refl)
  ]
  books-finish_run opts i (returned (some code) v) kept mine h = elim (Bool-cases opts.rm) [
    | inl rm ↦ ground (
      arith,
      h,
      rm,
      kept (some code) v refl,
      books-delete B js env i v (mine rm (some code) v refl),
    )
    | inr stays ↦ ground (arith, h, stays, kept (some code) v refl)
  ]

  books-create :
      (opts : Options) (i : CString) (w : W) → books (create fs js env opts i w).1 ≡ books w
  books-create opts i w = (At-create B (books w) js env opts i).at w refl

  books-run :
      (opts : Options) (i : CString) (w : W) {r : Option ℕ} {w' : W}
      → (opts.rm ≡ true
          → (s : Option ℕ) (v : W)
          → start fs js env k i opts.attach (create fs js env opts i w).1 ≡ returned s v
          → Owns own fs js env i v)
      → run fs js env k opts i w ≡ returned r w'
      → books w' ≡ books w
  unfolding run
  books-run opts i w {r} {w'} mine h =
      let w1 = (create fs js env opts i w).1 in
      let kept = books-create opts i w in
      elim (Option-cases (create fs js env opts i w).0) [
        | inl e ↦ ground (arith, e, h, kept)
        | inr (_, e) ↦
            books-finish_run opts i (start fs js env k i opts.attach w1) {b = books w} {r = r}
              {w' = w'} (λ s v f. books-start B js env i opts.attach w1 {r = s} {w' = v} f ∙ kept)
              mine (ground (arith, e, h))
      ]

  books-write_container_pid_file :
      (p i : CString) (w : W) → books (write_container_pid_file fs js env k p i w).1 ≡ books w
  unfolding write_container_pid_file
  books-write_container_pid_file p i w = elim (Option-cases (State.load fs js env i w)) [
    | inl e ↦ ground (arith, e)
    | inr (c, e) ↦
        let line = decimal_int c.init_pid ++ (10 ∷ []) in
        ground (arith, e, B.books-write_file p line w)
  ]

  books-write_pid_if_detached :
      (opts : Options) (i : CString) (w : W)
      → books (write_pid_if_detached fs js env k opts i w).1 ≡ books w
  unfolding write_pid_if_detached
  books-write_pid_if_detached opts i w = elim (Option-cases opts.pid_file) [
    | inl e ↦ ground (arith, e)
    | inr (p, e) ↦ ground (arith, e, books-write_container_pid_file p i w)
  ]

  books-finish_start :
      (opts : Options) (i : CString) (o : Outcome W ℕ) {b : Books} {r : Option ℤ} {w' : W}
      → ((s : Option ℕ) (v : W) → o ≡ returned s v → books v ≡ b)
      → finish_start fs js env k opts i o ≡ returned r w'
      → books w' ≡ b
  unfolding finish_start
  books-finish_start opts i crashed kept h = cc
  books-finish_start opts i (returned none v) kept h = ground (arith, h, kept none v refl)
  books-finish_start opts i (returned (some code) v) kept h =
      ground (arith, h, kept (some code) v refl, books-write_pid_if_detached opts i v)

  books-finish_run_command :
      (opts : Options) (i : CString) (o : Outcome W ℕ) {b : Books} {r : Option ℤ} {w' : W}
      → ((s : Option ℕ) (v : W) → o ≡ returned s v → books v ≡ b)
      → finish_run_command fs js env k opts i o ≡ returned r w'
      → books w' ≡ b
  unfolding finish_run_command
  books-finish_run_command opts i crashed kept h = cc
  books-finish_run_command opts i (returned none v) kept h = ground (arith, h, kept none v refl)
  books-finish_run_command opts i (returned (some zero) v) kept h =
      ground (arith, h, kept (some zero) v refl, books-write_pid_if_detached opts i v)
  books-finish_run_command opts i (returned (some (suc n)) v) kept h =
      ground (arith, h, kept (some (suc n)) v refl)

  -- A command leaves the books as they were.
  pub main_command-KeepsBooks :
      (opts : Options) (i : CString) (w : W) {r : Option ℤ} {w' : W}
      → OwnsDeleted own fs js env k opts i w
      → main_command fs js env k opts i w ≡ returned r w'
      → books w' ≡ books w
  unfolding main_command str_eq
  main_command-KeepsBooks opts i w {r} {w'} mine h =
      let is = λ (name : CString). str_eq (renamed opts.command) name in
      elim (Bool-cases (is (bytes "create"))) [
        | inl c ↦ ground (arith, h, c, books-create opts i w)
        | inr nc ↦ elim (Bool-cases (is (bytes "start"))) [
          | inl c ↦
              books-finish_start opts i (start fs js env k i opts.attach w) {r = r} {w' = w'}
                (λ s v f. books-start B js env i opts.attach w {r = s} {w' = v} f)
                (ground (arith, h, nc, c))
          | inr ns ↦ elim (Bool-cases (is (bytes "run"))) [
            | inl c ↦
                let owned = mine.1 (renamed_of opts.command (bytes "run") refl c) in
                books-finish_run_command opts i (run fs js env k opts i w) {r = r} {w' = w'}
                  (λ s v f. books-run opts i w {r = s} {w' = v} owned f)
                  (ground (arith, h, nc, ns, c))
            | inr nr ↦ elim (Bool-cases (is (bytes "delete"))) [
              | inl c ↦
                  let owned = mine.0 (renamed_of opts.command (bytes "delete") refl c) in
                  ground (
                    arith,
                    h,
                    nc,
                    ns,
                    nr,
                    c,
                    books-resume B js env i opts.resume_exec w,
                    books-delete B js env i w owned,
                  )
              | inr nd ↦
                  ground (arith, h, nc, ns, nr, nd, books-resume B js env i opts.resume_exec w)
            ]
          ]
        ]
      ]
