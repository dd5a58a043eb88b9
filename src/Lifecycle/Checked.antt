-- ===== src/Lifecycle/Checked.antt =====
-- What `nk_container_start` knows once its checks have passed.
use vibe_kata.Base.{◌≡◌, ◌≢◌, Bool, Option, none, some, Option-cases, inl, inr, arith, ℕ}
use vibe_kata.Base.Int.{ℤ, IsInt32}
use vibe_kata.Base.Bytes.{CString}
use vibe_kata.Files.{Files}
use vibe_kata.Jansson.{Jansson}
use vibe_kata.Types.{created, Container, container}
use vibe_kata.State
use vibe_kata.State.{Env, get_container_state_path}
use vibe_kata.Oci.{Spec, spec_load}
use vibe_kata.Container.Kernel.{Kernel, ChildRun}
use vibe_kata.Container.Context.{Context}
use vibe_kata.Lifecycle.Context.{Prepared, context_of}
use vibe_kata.Lifecycle.Start.{returned, prepare, prepare_container, prepare_spec, launch, start}

-- `clone` returns a process id of 32 bits.
pub record PidsFit {W : Type 0} (k : Kernel W) : Type 0 where
  pub fits :
      (flags : ℕ) (child : W → ChildRun × W) (w : W) {pid : ℤ}
      → (k.clone flags child w).0 ≡ some pid
      → IsInt32 pid

pub ne_none {ℓ} : {A : Type ℓ} (o : Option A) {a : A} → o ≡ some a → o ≢ none
ne_none none h e = cc
ne_none (some a) h e = cc

module _ {W J T : Type 0} (fs : Files W T) (js : Jansson J T) (env : Env) where
  prepare_spec_stored :
      (c : Container) (bundle : CString) (spec : Spec) {p : Prepared}
      → prepare_spec c bundle spec ≡ some p
      → (p.stored ≡ c) × (c.mode ≡ container)
  unfolding prepare_spec
  prepare_spec_stored c bundle spec {p} h = ground arith

  prepare_container_stored :
      (c : Container) (w : W) {p : Prepared}
      → prepare_container fs js env c w ≡ some p
      → (p.stored ≡ c) × (c.state ≡ created) × (c.mode ≡ container)
  unfolding prepare_container
  prepare_container_stored c w {p} h = elim (Option-cases c.bundle_path) [
    | inl e ↦ absurd (ground (arith, e))
    | inr (bundle, e) ↦ elim (Option-cases (spec_load fs js (some bundle) w)) [
      | inl q ↦ absurd (ground (arith, e, q))
      | inr (spec, q) ↦
          let (same, mode) = prepare_spec_stored c bundle spec {p = p} (ground (arith, e, q)) in
          (same, ground arith, mode)
    ]
  ]

  -- A start that gets beyond the checks has loaded a created container that is not for a VM.
  pub prepare_stored :
      (i : CString) (w : W) {p : Prepared}
      → prepare fs js env i w ≡ some p
      → (State.load fs js env i w ≡ some p.stored)
        × (p.stored.state ≡ created)
        × (p.stored.mode ≡ container)
  unfolding prepare
  prepare_stored i w {p} h = elim (Option-cases (State.load fs js env i w)) [
    | inl e ↦ absurd (ground (arith, e))
    | inr (c, e) ↦
        let (same, state, mode) = prepare_container_stored c w {p = p} (ground (arith, e)) in
        rw same (e, state, mode)
  ]

  module _ (k : Kernel W) where
    pub start_parts :
        (i : CString) (attach : Bool) (w : W) {n : ℕ} {w' : W}
        → start fs js env k i attach w ≡ returned (some n) w'
        → (p : Prepared) × (ctx : Context) × (prepare fs js env i w ≡ some p)
          × (context_of p ≡ some ctx)
          × (launch fs js env k p.stored ctx attach w ≡ (some n, w'))
    unfolding start
    start_parts i attach w {n} {w'} h = elim (Option-cases (prepare fs js env i w)) [
      | inl e ↦ absurd (ground (arith, e))
      | inr (p, e) ↦ elim (Option-cases (context_of p)) [
        | inl q ↦ absurd (ground (arith, e, q))
        | inr (ctx, q) ↦ (p, ctx, e, q, ground (arith, e, q))
      ]
    ]
