-- ===== src/Lifecycle/Start.antt =====
-- `nk_container_start` (src/main.c).
use vibe_kata.Base.{ℕ, ◌+◌, Bool, true, false, Option, none, some, if◌then◌else◌}
use vibe_kata.Base.Int.{ℤ}
use vibe_kata.Base.Bytes.{CString}
use vibe_kata.Effects.{M, pure, attempt, ◌>>=◌}
use vibe_kata.Files.{Files}
use vibe_kata.Jansson.{Jansson}
use vibe_kata.Types.{ContainerState, created, ExecutionMode, container, vm, Container}
use vibe_kata.State.{Env, path_max}
use vibe_kata.State
use vibe_kata.Oci.{Spec, spec_load}
use vibe_kata.Container.Kernel.{Kernel, WaitStatus, exit_status, term_signal, other_status}
use vibe_kata.Container.Context.{Context}
use vibe_kata.Lifecycle.Defs.{as_running, as_stopped}
use vibe_kata.Lifecycle.Context.{Prepared, context_of}
use vibe_kata.Container.Process.{container_exec, container_wait}

-- How a call ends: it returns, -1 as `none`, or it reads through a NULL pointer.
pub data Outcome {ℓ} (W : Type 0) (A : Type ℓ) : Type ℓ where
  crashed : Outcome W A
  returned : Option A → W → Outcome W A

abbrev is_created : ContainerState → Bool
is_created created = true
is_created _ = false

abbrev is_vm : ExecutionMode → Bool
is_vm vm = true
is_vm container = false

-- `exit_code` after the wait
unfoldable pub exit_code_of : WaitStatus → ℕ
exit_code_of (exit_status n) = n
exit_code_of (term_signal s) = 128 + s
exit_code_of other_status = 0

-- The checks of the loaded specification.
unfoldable pub prepare_spec : Container → CString → Spec → Option Prepared
prepare_spec c bundle spec = elim spec.process [
  | none ↦ none
  | some process ↦ elim spec.root [
    | none ↦ none
    | some root ↦
        if is_vm c.mode
        then none
        else some
            (record { stored = c; bundle = bundle; spec = spec; process = process; root = root })
  ]
]

module _ {W J T : Type 0} (fs : Files W T) (js : Jansson J T) (env : Env) where
  unfoldable pub prepare_container : Container → W → Option Prepared
  prepare_container c w =
      if is_created c.state
      then (elim c.bundle_path [
        | none ↦ none
        | some bundle ↦ elim (spec_load fs js (some bundle) w) [
          | none ↦ none
          | some spec ↦ prepare_spec c bundle spec
        ]
      ])
      else none

  -- The checks up to the context.
  unfoldable pub prepare : CString → W → Option Prepared
  prepare container_id w = elim (State.load fs js env container_id w) [
    | none ↦ none
    | some c ↦ prepare_container c w
  ]

  module _ (k : Kernel W) where
    unfoldable pub attach_to : Container → ℤ → M W ℕ
    attach_to c init_pid = do
      status ← container_wait k init_pid
      _ ← attempt (State.save fs js env (as_stopped c))
      pure (exit_code_of status)

    unfoldable pub launch : Container → Context → Bool → M W ℕ
    launch c ctx attach = do
      init_pid ← container_exec fs k ctx
      _ ← attempt (State.save fs js env (as_running c init_pid))
      if attach then attach_to c init_pid else pure 0

    -- `nk_container_start`, which returns 0 and stores the exit code, given here.
    unfoldable pub start : CString → Bool → W → Outcome W ℕ
    start container_id attach w = elim (prepare container_id w) [
      | none ↦ returned none w
      | some p ↦ elim (context_of p) [
        | none ↦ crashed
        | some ctx ↦ let (r, w') = launch p.stored ctx attach w in returned r w'
      ]
    ]
