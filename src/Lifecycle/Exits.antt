-- ===== src/Lifecycle/Exits.antt =====
-- The exit codes of the commands of src/main.c: which commands return one.
use vibe_kata.Base.{
  Option, ℕ, zero, suc, ◌≡◌, refl, ◌∙◌, ap, Bool, true, false, none, some, if◌then◌else◌,
  Option-cases, inl, inr, arith, Bool-cases,
}
use vibe_kata.Base.Bytes.{CString, bytes, str_eq, str_eq_iff}
use vibe_kata.Files.{Files}
use vibe_kata.Jansson.{Jansson}
use vibe_kata.Types.{Options}
use vibe_kata.Base.Int.{ℤ, pos, negsuc, int_eqb}
use vibe_kata.Lifecycle.Defs.{create}
use vibe_kata.Lifecycle.Running.{delete, finish_run, run}
use vibe_kata.Lifecycle.Main.{
  renamed, write_pid_if_detached, finish_start, finish_run_command, main_command,
}
use vibe_kata.Lifecycle.Start.{Outcome, returned}
use vibe_kata.State.{Env}
use vibe_kata.Container.Kernel.{Kernel}
use vibe_kata.Lifecycle.Returns.{Reads, start_returns}
use vibe_kata.Lifecycle.Typed.{IsOrdered}

-- A command ends with an exit code.
abbrev pub Returns : {W : Type 0} → Outcome W ℤ → Type 0
Returns {W} o = (ret : ℤ) × (w' : W) × (o ≡ returned (some ret) w')

Returns-if :
    {W : Type 0} (b : Bool) {o o' : Outcome W ℤ}
    → (b ≡ true → Returns o)
    → Returns o'
    → Returns (if b then o else o')
Returns-if true r s = r refl
Returns-if false r s = s

-- A command that `main` takes for `start` or `run` is spelled so.
pub renamed_of :
    (command name : CString)
    → str_eq (bytes "exec") name ≡ false
    → str_eq (renamed command) name ≡ true
    → command ≡ name
unfolding renamed
renamed_of command name other h = elim (Bool-cases (str_eq command (bytes "resume"))) [
  | inl alias_of ↦ absurd (ground (arith, alias_of, h, other))
  | inr same ↦ (str_eq_iff command name).0 (ground (arith, same, h))
]

module _ {W J T : Type 0} (fs : Files W T) (js : Jansson J T) (env : Env) (k : Kernel W) where
  finish_run_returns :
      (opts : Options) (i : CString) (r : Option ℕ) (v : W)
      → (s : Option ℕ) × (w' : W) × (finish_run fs js env k opts i (returned r v) ≡ returned s w')
  unfolding finish_run
  finish_run_returns opts i none v =
      (none, (if opts.rm then (delete fs js env k i v).1 else v), refl)
  finish_run_returns opts i (some code) v = elim (Bool-cases opts.rm) [
    | inl rm ↦
        let (done, w') = delete fs js env k i v in
        (
          (elim done [ none ↦ none | some _ ↦ some (if opts.attach then code else 0) ]),
          w',
          rw rm refl,
        )
    | inr kept ↦ (some (if opts.attach then code else 0), v, rw kept refl)
  ]

  run_returns :
      (opts : Options) (i : CString) (w : W)
      → ((config : J)
          → Reads fs js env i (create fs js env opts i w).1 config
          → IsOrdered js config)
      → (r : Option ℕ) × (w' : W) × (run fs js env k opts i w ≡ returned r w')
  unfolding run
  run_returns opts i w h = elim (Option-cases (create fs js env opts i w).0) [
    | inl e ↦ (none, (create fs js env opts i w).1, ground (arith, e))
    | inr (_, e) ↦
        let (r, v, f) = start_returns fs js env k i opts.attach (create fs js env opts i w).1 h in
        let (s, w', g) = finish_run_returns opts i r v in (s, w', ground (arith, e, f, g))
  ]

  finish_start-Returns :
      (opts : Options) (i : CString) (r : Option ℕ) (v : W)
      → Returns (finish_start fs js env k opts i (returned r v))
  unfolding finish_start
  finish_start-Returns opts i none v = (negsuc 0, v, refl)
  finish_start-Returns opts i (some code) v =
      let (ret, w') = write_pid_if_detached fs js env k opts i v in
      elim (Bool-cases (int_eqb ret (pos 0))) [
        | inl zero_ret ↦ ((if opts.attach then pos code else pos 0), w', ground (arith, zero_ret))
        | inr failed ↦ (ret, w', ground (arith, failed))
      ]

  finish_run_command-Returns :
      (opts : Options) (i : CString) (r : Option ℕ) (v : W)
      → Returns (finish_run_command fs js env k opts i (returned r v))
  unfolding finish_run_command
  finish_run_command-Returns opts i none v = (negsuc 0, v, refl)
  finish_run_command-Returns opts i (some zero) v =
      let (ret, w') = write_pid_if_detached fs js env k opts i v in (ret, w', refl)
  finish_run_command-Returns opts i (some (suc n)) v = (pos (suc n), v, refl)

  -- A command returns an exit code under the same condition.
  pub main_command-Returns :
      (opts : Options) (i : CString) (w : W)
      → (opts.command ≡ bytes "start"
          → (config : J) → Reads fs js env i w config
          → IsOrdered js config)
      → (opts.command ≡ bytes "run"
          → (config : J) → Reads fs js env i (create fs js env opts i w).1 config
          → IsOrdered js config)
      → Returns (main_command fs js env k opts i w)
  unfolding main_command str_eq
  main_command-Returns opts i w starting running =
      let is = λ (name : CString). str_eq (renamed opts.command) name in
      Returns-if (is (bytes "create")) (λ _. (_, _, refl))
        (Returns-if (is (bytes "start"))
          (λ e.
            let (r, v, started) =
              start_returns fs js env k i opts.attach w
                (starting (renamed_of opts.command (bytes "start") refl e)) in
            let (ret, w', after) = finish_start-Returns opts i r v in
            (ret, w', ap (finish_start fs js env k opts i) started ∙ after))
          (Returns-if (is (bytes "run"))
            (λ e.
              let (r, v, ran) =
                run_returns opts i w (running (renamed_of opts.command (bytes "run") refl e)) in
              let (ret, w', after) = finish_run_command-Returns opts i r v in
              (ret, w', ap (finish_run_command fs js env k opts i) ran ∙ after))
            (Returns-if (is (bytes "exec")) (λ _. (_, _, refl))
              (Returns-if (is (bytes "delete")) (λ _. (_, _, refl))
                (Returns-if (is (bytes "state")) (λ _. (_, _, refl)) (_, _, refl))))))
