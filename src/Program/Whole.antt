-- ===== src/Program/Whole.antt =====
-- What holds of every run of the program.
use vibe_kata.Base.{
  sym, subst, ap, Bool, ◌≡◌, refl, Option, some, Option-cases, Bool-cases, inl, inr, List, arith,
  ◌⊎◌,
}
use vibe_kata.Base.Int.{ℤ, pos}
use vibe_kata.Base.Bytes.{CString, bytes, str_eq}
use vibe_kata.Files.{Files}
use vibe_kata.Jansson.{Jansson}
use vibe_kata.Types.{Options}
use vibe_kata.State.{Env}
use vibe_kata.Container.Kernel.{Kernel}
use vibe_kata.Log.{LogConfig}
use vibe_kata.Args.{
  Getopt, Parsed, accepted, asked_help, asked_version, parse_args, default_options,
}
use vibe_kata.Args.Consistent.{Parse-cases, IsConsistent, parse_args-IsConsistent}
use vibe_kata.Lifecycle.{returned, create, main_command}
use vibe_kata.Lifecycle.Typed.{IsOrdered}
use vibe_kata.Lifecycle.Returns.{Reads}
use vibe_kata.Lifecycle.Exits.{Returns, main_command-Returns}
use vibe_kata.Resources.{Books, KeepsBooks}
use vibe_kata.Resources.Main.{OwnsDeleted, main_command-KeepsBooks}
use vibe_kata.Lifecycle.Steps.{Reach, start_at}
use vibe_kata.Lifecycle.Machine.{CommandStored, main_command-Reach}
use vibe_kata.Program.{run_command, run_options, main}

module _ {W J T : Type 0} (fs : Files W T) (js : Jansson J T) (env : Env) (k : Kernel W) where
  run_options_cases :
      (prog_name : CString) (opts : Options) (w : W) {r : Option ℤ} {w' : W}
      → (run_options fs js env k prog_name opts w).ends ≡ returned r w'
      → (w ≡ w')
        ⊎ ((i : CString) × (opts.container_id ≡ some i)
            × (main_command fs js env k opts i w ≡ returned r w'))
  unfolding run_options run_command
  run_options_cases prog_name opts w {r} {w'} h =
      elim (Bool-cases (str_eq opts.command (bytes "help"))) [
        | inl help ↦ inl (ground (arith, help, h))
        | inr other ↦ elim (Bool-cases (str_eq opts.command (bytes "version"))) [
          | inl version ↦ inl (ground (arith, other, version, h))
          | inr command ↦ elim (Option-cases opts.container_id) [
            | inl e ↦ absurd (ground (arith, other, command, e, h))
            | inr (i, e) ↦ inr (i, e, ground (arith, other, command, e, h))
          ]
        ]
      ]

  -- A run that returns leaves the world as it was, or it runs the command of a container.
  main_cases :
      (g : Getopt) (log : LogConfig) (prog_name : CString) (args : List CString) (w : W)
      {r : Option ℤ} {w' : W}
      → (main fs js env k g log prog_name args w).ends ≡ returned r w'
      → (w ≡ w')
        ⊎ ((p : Parsed) × (i : CString) × (parse_args g log args ≡ accepted p)
            × (p.options.container_id ≡ some i)
            × (main_command fs js env k p.options i w ≡ returned r w'))
  unfolding main
  main_cases g log prog_name args w {r} {w'} h = elim (Parse-cases (parse_args g log args)) [
    | inl e ↦ inl (ground (arith, e, h))
    | inr (inl (asked_help, e)) ↦ inl (ground (arith, e, h))
    | inr (inl (asked_version, e)) ↦ inl (ground (arith, e, h))
    | inr (inr (p, e)) ↦
        elim (run_options_cases prog_name p.options w {r = r} {w' = w'} (ground (arith, e, h))) [
          | inl same ↦ inl same
          | inr (i, named, ran) ↦ inr (p, i, e, named, ran)
        ]
  ]

module _ {W J T : Type 0} {fs : Files W T} {k : Kernel W} {own : ℤ → Bool} {books : W → Books}
    (B : KeepsBooks own fs k books) (js : Jansson J T) (env : Env) where
  -- A run of the program that returns from `main` leaves the descriptors that were open before it
  -- open, and no others: it closes each that it opens, once and on every path, and reads, writes or
  -- closes none that is not open. It signals no process id of 0 or below, which would stand for a
  -- group of processes or for all, and sends a signal other than 0 only to processes that `own`
  -- allows. This is for an `own` that allows the process of the container where a `delete`, or the
  -- deletion at the end of a `run` with `--rm`, finds it running; and for the descriptors of pipes
  -- and of control files, since the calls on other files by name close what they open.
  pub main-KeepsBooks :
      (g : Getopt) (log : LogConfig) (prog_name : CString) (args : List CString) (w : W)
      {r : Option ℤ} {w' : W}
      → ((p : Parsed) (i : CString)
          → parse_args g log args ≡ accepted p
          → p.options.container_id ≡ some i
          → OwnsDeleted own fs js env k p.options i w)
      → (main fs js env k g log prog_name args w).ends ≡ returned r w'
      → books w' ≡ books w
  main-KeepsBooks g log prog_name args w {r} {w'} mine h =
      elim (main_cases fs js env k g log prog_name args w {r = r} {w' = w'} h) [
        | inl same ↦ ap books (sym same)
        | inr (p, i, e, named, ran) ↦
            main_command-KeepsBooks B js env p.options i w {r = r} {w' = w'} (mine p i e named) ran
      ]

module _ {W J T : Type 0} (fs : Files W T) (js : Jansson J T) (env : Env) (k : Kernel W) where
  run_named-Returns :
      (prog_name : CString) (opts : Options) (i : CString) (w : W)
      → opts.container_id ≡ some i
      → Returns (main_command fs js env k opts i w)
      → Returns (run_options fs js env k prog_name opts w).ends
  unfolding run_options run_command
  run_named-Returns prog_name opts i w named (ret, w', done) =
      elim (Bool-cases (str_eq opts.command (bytes "help"))) [
        | inl help ↦ (pos 0, w, ground (arith, help))
        | inr other ↦ elim (Bool-cases (str_eq opts.command (bytes "version"))) [
          | inl version ↦ (pos 0, w, ground (arith, other, version))
          | inr command ↦ (ret, w', ground (arith, other, command, named, done))
        ]
      ]

  run_options-Returns :
      (prog_name : CString) (opts : Options) (w : W)
      → (opts ≡ default_options (bytes "help"))
        ⊎ (opts ≡ default_options (bytes "version"))
        ⊎ IsConsistent opts
      → ((i : CString) → opts.container_id ≡ some i → Returns (main_command fs js env k opts i w))
      → Returns (run_options fs js env k prog_name opts w).ends
  unfolding run_options default_options str_eq
  run_options-Returns prog_name opts w (inl help) done = (pos 0, w, rw help refl)
  run_options-Returns prog_name opts w (inr (inl version)) done = (pos 0, w, rw version refl)
  run_options-Returns prog_name opts w (inr (inr consistent)) done =
      elim (Option-cases opts.container_id) [
        | inl e ↦ absurd (ground (arith, consistent.named, e))
        | inr (i, e) ↦ run_named-Returns prog_name opts i w e (done i e)
      ]

  -- `main` returns an exit code for all arguments, and never goes on with a container id that is
  -- NULL, where a `start` finds the elements of `linux.namespaces` with a string `type` before all
  -- others in the `config.json` that it reads, if that has such an array, and a `run` does so after
  -- its creation.
  pub main-Returns :
      (g : Getopt) (log : LogConfig) (prog_name : CString) (args : List CString) (w : W)
      → ((p : Parsed) (i : CString)
          → parse_args g log args ≡ accepted p
          → p.options.container_id ≡ some i
          → (p.options.command ≡ bytes "start"
              → (config : J) → Reads fs js env i w config
              → IsOrdered js config)
            × (p.options.command ≡ bytes "run"
                → (config : J) → Reads fs js env i (create fs js env p.options i w).1 config
                → IsOrdered js config))
      → Returns (main fs js env k g log prog_name args w).ends
  unfolding main
  main-Returns g log prog_name args w ordered = elim (Parse-cases (parse_args g log args)) [
    | inl e ↦ (pos 1, w, ground (arith, e))
    | inr (inl (asked_help, e)) ↦ (pos 0, w, ground (arith, e))
    | inr (inl (asked_version, e)) ↦ (pos 0, w, ground (arith, e))
    | inr (inr (p, e)) ↦
        let (ret, w', done) =
          run_options-Returns prog_name p.options w (parse_args-IsConsistent g log args {q = p} e)
            (λ i named.
              let (starts, runs) = ordered p i e named in
              main_command-Returns fs js env k p.options i w starts runs) in
        (ret, w', ground (arith, e, done))
  ]

module _ {W J T : Type 0} (fs : Files W T) (js : Jansson J T) (env : Env) (k : Kernel W)
    (ids : CString → Type 0) where
  -- A run of the program that returns from `main` leads to a world that commands on the containers
  -- of `ids`, each taken as one step, lead to. This is for arguments that name a container of `ids`
  -- and no file for the process id, where they are accepted, and where the stores, `fclose`
  -- included, and the deletion that the command makes succeed: a creation that returns 0 is of an
  -- id for which nothing is loaded and of a bundle path that is not empty and can be stored, and
  -- one that fails does so before it stores anything.
  pub main-Reach :
      (g : Getopt) (log : LogConfig) (prog_name : CString) (args : List CString) (w : W)
      {r : Option ℤ} {w' : W}
      → ((p : Parsed) (i : CString)
          → parse_args g log args ≡ accepted p
          → p.options.container_id ≡ some i
          → ids i × CommandStored fs js env k p.options i w)
      → (main fs js env k g log prog_name args w).ends ≡ returned r w'
      → Reach fs js env k ids w w'
  main-Reach g log prog_name args w {r} {w'} stored h =
      elim (main_cases fs js env k g log prog_name args w {r = r} {w' = w'} h) [
        | inl same ↦ subst (Reach fs js env k ids w) same start_at
        | inr (p, i, e, named, ran) ↦
            let (m, stores) = stored p i e named in
            main_command-Reach fs js env k ids i m p.options w {r = r} {w' = w'} stores ran
      ]
