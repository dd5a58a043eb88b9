-- ===== src/Lifecycle/Composed.antt =====
-- `nk_container_run` as a sequence of the other commands.
use vibe_kata.Base.{
  ◌≡◌, refl, sym, ◌∙◌, subst, Bool, true, false, Option, none, some, arith, if◌then◌else◌, ℕ,
}
use vibe_kata.Base.Bytes.{CString}
use vibe_kata.Files.{Files}
use vibe_kata.Jansson.{Jansson}
use vibe_kata.Types.{Options}
use vibe_kata.State
use vibe_kata.State.{Env}
use vibe_kata.Container.Kernel.{Kernel}
use vibe_kata.Lifecycle.Defs.{create}
use vibe_kata.Lifecycle.Created.{create_flushes}
use vibe_kata.Lifecycle.Start.{Outcome, crashed, returned, start}
use vibe_kata.Lifecycle.Running.{delete, finish_run, run}
use vibe_kata.Lifecycle.Steps.{
  IsUsable, LaunchStored, EndStored, Deletes, creates, starts, attaches, deletes, Reach, start_at,
  then_step,
}

module _ {W J T : Type 0} (fs : Files W T) (js : Jansson J T) (env : Env) (k : Kernel W) where
  -- What comes after the creation: the start, and the deletion if there is one.
  finish_cases :
      (opts : Options) (i : CString) (o : Outcome W ℕ) {r : Option ℕ} {w' : W}
      → finish_run fs js env k opts i o ≡ returned r w'
      → (s : Option ℕ) × (v : W) × (o ≡ returned s v)
        × (w' ≡ (if opts.rm then (delete fs js env k i v).1 else v))
  unfolding finish_run
  finish_cases opts i crashed h = cc
  finish_cases opts i (returned none v) h = (none, v, refl, ground arith)
  finish_cases opts i (returned (some code) v) h = (some code, v, refl, ground arith)

  pub run_of_created :
      (opts : Options) (i : CString) (w : W)
      → (create fs js env opts i w).0 ≡ some tt
      → run fs js env k opts i w
        ≡ finish_run fs js env k opts i
            (start fs js env k i opts.attach (create fs js env opts i w).1)
  unfolding run
  run_of_created opts i w made = ground (arith, made)

  module _ (ids : CString → Type 0) (i : CString) (m : ids i) where
    pub start-Reach :
        (attach : Bool) (w v u : W) {s : Option ℕ}
        → Reach fs js env k ids w v
        → start fs js env k i attach v ≡ returned s u
        → LaunchStored fs js env k i v
        → (attach ≡ true → EndStored fs js env k i v)
        → Reach fs js env k ids w u
    start-Reach true w v u {s} r h l e = then_step i r m (attaches {r = s} h l (e refl))
    start-Reach false w v u {s} r h l e = then_step i r m (starts {r = s} h l)

    delete-Reach :
        (rm : Bool) (w v : W)
        → Reach fs js env k ids w v
        → (rm ≡ true → Deletes fs js env k i v)
        → Reach fs js env k ids w (if rm then (delete fs js env k i v).1 else v)
    delete-Reach true w v r d = then_step i r m (deletes (d refl))
    delete-Reach false w v r d = r

    -- A `nk_container_run` that returns leads to where a creation, a start and, with `--rm`, a
    -- deletion of the container lead as single commands. This is for an id for which nothing is
    -- stored, a creation that returns 0, a bundle path that is not empty and can be stored, and
    -- where the stores of the start and, after it, the deletion of the state file succeed.
    pub run-Reach :
        (opts : Options) (w : W) {r : Option ℕ} {w' : W}
        → run fs js env k opts i w ≡ returned r w'
        → IsUsable fs js env k opts
        → State.load fs js env i w ≡ none
        → (create fs js env opts i w).0 ≡ some tt
        → create_flushes fs js env opts i w ≡ true
        → let w1 = (create fs js env opts i w).1 in
          LaunchStored fs js env k i w1
          → (opts.attach ≡ true → EndStored fs js env k i w1)
          → (opts.rm ≡ true
              → (v : W) (s : Option ℕ) → start fs js env k i opts.attach w1 ≡ returned s v
              → Deletes fs js env k i v)
          → Reach fs js env k ids w w'
    run-Reach opts w {r} {w'} h usable absent made flushed launched ended gone =
        let w1 = (create fs js env opts i w).1 in
        let (s, v, started, last) =
          finish_cases opts i (start fs js env k i opts.attach w1) {r = r} {w' = w'}
            (sym (run_of_created opts i w made) ∙ h) in
        let r1 : Reach fs js env k ids w w1 =
          then_step i start_at m (creates opts usable absent made flushed) in
        let r2 = start-Reach opts.attach w w1 v {s = s} r1 started launched ended in
        subst (Reach fs js env k ids w) (sym last)
          (delete-Reach opts.rm w v r2 (λ rm. gone rm v s started))
