-- ===== src/Lifecycle/Asked.antt =====
-- What `state` answers.
use vibe_kata.Base.{◌≡◌, ap, ◌≢◌, some, Option-cases, inl, inr, arith, is_some, if◌then◌else◌}
use vibe_kata.Base.Int.{pos}
use vibe_kata.Base.Bytes.{CString, bytes, str_eq}
use vibe_kata.Files.{Files}
use vibe_kata.Jansson
use vibe_kata.Jansson.{Jansson}
use vibe_kata.Types.{ContainerState, invalid, Options}
use vibe_kata.State
use vibe_kata.State.{Env}
use vibe_kata.State.Loaded.{load-IsLoaded}
use vibe_kata.Container.Kernel.{Kernel}
use vibe_kata.Lifecycle.Defs.{container_state}
use vibe_kata.Lifecycle.Start.{returned}
use vibe_kata.Lifecycle.Main.{state_answer, renamed, main_command}

state_answer-zero : (s : ContainerState) → s ≢ invalid → (state_answer s).1 ≡ pos 0
unfolding state_answer
state_answer-zero s h = ground arith

module _ {W J T : Type 0} (fs : Files W T) {js : Jansson J T} (env : Env) (k : Kernel W)
    (L : Jansson.IsLawful js) where
  state_of_loaded :
      (i : CString) (w : W)
      → (state_answer (container_state fs js env i w)).1
        ≡ (if is_some (State.load fs js env i w) then pos 0 else pos 1)
  unfolding container_state state_answer
  state_of_loaded i w = elim (Option-cases (State.load fs js env i w)) [
    | inl e ↦ ground (arith, e)
    | inr (c, e) ↦ ground (arith, e, state_answer-zero c.state (load-IsLoaded fs env L i w e).valid)
  ]

  -- The command `state` changes nothing, and exits with 0 where the state file of the container can
  -- be read and parsed, whatever it holds, and with 1 where it cannot.
  pub main_command-state :
      (opts : Options) (i : CString) (w : W)
      → opts.command ≡ bytes "state"
      → main_command fs js env k opts i w
        ≡ returned (some (if is_some (State.load fs js env i w) then pos 0 else pos 1)) w
  unfolding main_command renamed str_eq
  main_command-state opts i w e = rw e (ap (λ z. returned (some z) w) (state_of_loaded i w))
