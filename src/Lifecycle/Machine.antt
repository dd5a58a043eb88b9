-- ===== src/Lifecycle/Machine.antt =====
-- `main` (src/main.c) for a container, as steps of the life cycle of the containers.
use vibe_kata.Base.{
  ◌≡◌, subst, true, false, Bool-cases, Option, none, some, Option-cases, inl, inr, ◌⊎◌, arith, ℕ,
  zero, suc,
}
use vibe_kata.Base.Int.{ℤ}
use vibe_kata.Base.Bytes.{CString, bytes, str_eq, str_eq_iff}
use vibe_kata.Files.{Files}
use vibe_kata.Jansson.{Jansson}
use vibe_kata.Types.{Options}
use vibe_kata.State
use vibe_kata.State.{Env}
use vibe_kata.Container.Kernel.{Kernel}
use vibe_kata.Lifecycle.Defs.{ensure_state_dir, has_valid_spec, create}
use vibe_kata.Lifecycle.Created.{create_flushes}
use vibe_kata.Lifecycle.Start.{Outcome, crashed, returned, start}
use vibe_kata.Lifecycle.Running.{resume, delete, run}
use vibe_kata.Lifecycle.Main.{
  renamed, write_pid_if_detached, finish_start, finish_run_command, main_command,
}
use vibe_kata.Lifecycle.Steps.{
  IsUsable, LaunchStored, EndStored, ResumeStored, Deletes, creates, create_refused, create_invalid,
  resumes, deletes, Reach, start_at, then_step,
}
use vibe_kata.Lifecycle.Composed.{start-Reach, run-Reach}

module _ {W J T : Type 0} (fs : Files W T) (js : Jansson J T) (env : Env) (k : Kernel W) where
  -- A creation makes a container that was not there, of a bundle path that can be stored, or it fails
  -- before it stores anything.
  abbrev pub CreateStored : Options → CString → W → Type 0
  CreateStored opts i w =
      ((create fs js env opts i w).0 ≡ some tt
        → IsUsable fs js env k opts
          × (State.load fs js env i w ≡ none)
          × (create_flushes fs js env opts i w ≡ true))
      × ((create fs js env opts i w).0 ≡ none
          → (State.exists fs env i w ≡ true)
            ⊎ ((ensure_state_dir fs env w).0 ≡ none)
            ⊎ (has_valid_spec fs js env opts.bundle_path (ensure_state_dir fs env w).1 ≡ false))

  abbrev pub StartStored : Options → CString → W → Type 0
  StartStored opts i w =
      LaunchStored fs js env k i w × (opts.attach ≡ true → EndStored fs js env k i w)

  -- The stores that a command makes succeed, and it writes no process id to a file.
  pub record CommandStored (opts : Options) (i : CString) (w : W) : Type 0 where
    pub no_pid_file : opts.pid_file ≡ none
    pub at_create : renamed opts.command ≡ bytes "create" → CreateStored opts i w
    pub at_start : renamed opts.command ≡ bytes "start" → StartStored opts i w
    pub at_run :
        renamed opts.command ≡ bytes "run"
        → CreateStored opts i w × StartStored opts i (create fs js env opts i w).1
    pub at_removal :
        renamed opts.command ≡ bytes "run"
        → opts.rm ≡ true
        → (v : W) (s : Option ℕ)
        → start fs js env k i opts.attach (create fs js env opts i w).1 ≡ returned s v
        → Deletes fs js env k i v
    pub at_exec :
        renamed opts.command ≡ bytes "exec" → ResumeStored fs js env k i opts.resume_exec w
    pub at_delete : renamed opts.command ≡ bytes "delete" → Deletes fs js env k i w

  finish_start_world :
      (opts : Options) (i : CString) (o : Outcome W ℕ) {r : Option ℤ} {w' : W}
      → opts.pid_file ≡ none
      → finish_start fs js env k opts i o ≡ returned r w'
      → (s : Option ℕ) × (o ≡ returned s w')
  unfolding finish_start write_pid_if_detached
  finish_start_world opts i crashed p h = cc
  finish_start_world opts i (returned none v) p h = (none, ground (arith, h))
  finish_start_world opts i (returned (some code) v) p h = (some code, ground (arith, h, p))

  finish_run_world :
      (opts : Options) (i : CString) (o : Outcome W ℕ) {r : Option ℤ} {w' : W}
      → opts.pid_file ≡ none
      → finish_run_command fs js env k opts i o ≡ returned r w'
      → (s : Option ℕ) × (o ≡ returned s w')
  unfolding finish_run_command write_pid_if_detached
  finish_run_world opts i crashed p h = cc
  finish_run_world opts i (returned none v) p h = (none, ground (arith, h))
  finish_run_world opts i (returned (some zero) v) p h = (some zero, ground (arith, h, p))
  finish_run_world opts i (returned (some (suc n)) v) p h = (some (suc n), ground (arith, h))

  run_of_failed :
      (opts : Options) (i : CString) (w : W)
      → (create fs js env opts i w).0 ≡ none
      → run fs js env k opts i w ≡ returned none (create fs js env opts i w).1
  unfolding run
  run_of_failed opts i w failed = ground (arith, failed)

  module _ (ids : CString → Type 0) (i : CString) (m : ids i) where
    create-Reach :
        (opts : Options) (w : W)
        → CreateStored opts i w
        → Reach fs js env k ids w (create fs js env opts i w).1
    create-Reach opts w stored = elim (Option-cases (create fs js env opts i w).0) [
      | inr (tt, made) ↦
          let (usable, absent, flushed) = stored.0 made in
          then_step i start_at m (creates opts usable absent made flushed)
      | inl failed ↦ elim (stored.1 failed) [
        | inl there ↦ then_step i start_at m (create_refused opts there)
        | inr bad ↦ then_step i start_at m (create_invalid opts bad)
      ]
    ]

    command_run-Reach :
        (opts : Options) (w : W) {r : Option ℕ} {w' : W}
        → renamed opts.command ≡ bytes "run"
        → CommandStored opts i w
        → run fs js env k opts i w ≡ returned r w'
        → Reach fs js env k ids w w'
    command_run-Reach opts w {r} {w'} named stored h =
        let (made_stored, (launched, ended)) = stored.at_run named in
        elim (Option-cases (create fs js env opts i w).0) [
          | inl failed ↦
              let same : (create fs js env opts i w).1 ≡ w' =
                ground (arith, run_of_failed opts i w failed, h) in
              subst (Reach fs js env k ids w) same (create-Reach opts w made_stored)
          | inr (tt, made) ↦
              let (usable, absent, flushed) = made_stored.0 made in
              run-Reach fs js env k ids i m opts w {r = r} {w' = w'} h usable absent made flushed
                launched ended (stored.at_removal named)
        ]

    -- A command of `main` is a sequence of steps on its container.
    pub main_command-Reach :
        (opts : Options) (w : W) {r : Option ℤ} {w' : W}
        → CommandStored opts i w
        → main_command fs js env k opts i w ≡ returned r w'
        → Reach fs js env k ids w w'
    unfolding main_command
    main_command-Reach opts w {r} {w'} stored h =
        let command = renamed opts.command in
        let at = λ (v : W) (same : v ≡ w') (reached : Reach fs js env k ids w v).
          subst (Reach fs js env k ids w) same reached in
        elim (Bool-cases (str_eq command (bytes "create"))) [
          | inl c ↦
              at (create fs js env opts i w).1 (ground (arith, h, c))
                (create-Reach opts w (stored.at_create ((str_eq_iff command (bytes "create")).0 c)))
          | inr nc ↦ elim (Bool-cases (str_eq command (bytes "start"))) [
            | inl c ↦
                let (s, started) =
                  finish_start_world opts i (start fs js env k i opts.attach w) {r = r} {w' = w'}
                    stored.no_pid_file (ground (arith, h, nc, c)) in
                let (launched, ended) =
                  stored.at_start ((str_eq_iff command (bytes "start")).0 c) in
                start-Reach fs js env k ids i m opts.attach w w w' {s = s} start_at started launched
                  ended
            | inr ns ↦ elim (Bool-cases (str_eq command (bytes "run"))) [
              | inl c ↦
                  let (s, ran) =
                    finish_run_world opts i (run fs js env k opts i w) {r = r} {w' = w'}
                      stored.no_pid_file (ground (arith, h, nc, ns, c)) in
                  command_run-Reach opts w {r = s} {w' = w'}
                    ((str_eq_iff command (bytes "run")).0 c) stored ran
              | inr nr ↦ elim (Bool-cases (str_eq command (bytes "exec"))) [
                | inl c ↦
                    at (resume fs js env k i opts.resume_exec w).1
                      (ground (arith, h, nc, ns, nr, c))
                      (then_step i start_at m (
                        resumes opts.resume_exec
                          (stored.at_exec ((str_eq_iff command (bytes "exec")).0 c))))
                | inr ne ↦ elim (Bool-cases (str_eq command (bytes "delete"))) [
                  | inl c ↦ at (delete fs js env k i w).1 (ground (arith, h, nc, ns, nr, ne, c)) (
                      then_step i start_at m
                        (deletes (stored.at_delete ((str_eq_iff command (bytes "delete")).0 c))))
                  | inr nd ↦ at w (ground (arith, h, nc, ns, nr, ne, nd)) start_at
                ]
              ]
            ]
          ]
        ]
