-- ===== src/Lifecycle/Refines.antt =====
-- Each command makes one change of the state machine to the container that it names.
use vibe_kata.Base.{
  ◌≡◌, refl, ◌∙◌, Bool, true, false, Option, none, some, Option-cases, inl, inr, arith, is_some,
}
use vibe_kata.Base.Int.{ℤ, pos}
use vibe_kata.Base.Bytes.{CString}
use vibe_kata.Files
use vibe_kata.Files.{Files}
use vibe_kata.Jansson
use vibe_kata.Jansson.{Jansson}
use vibe_kata.Types.{created, running, stopped, Container, Options}
use vibe_kata.State
use vibe_kata.State.{Env, get_container_state_path}
use vibe_kata.State.Frame.{load_of_read}
use vibe_kata.Container.Kernel.{Kernel, WaitStatus}
use vibe_kata.Container.Context.{Context}
use vibe_kata.Container.Process.{container_exec, container_wait}
use vibe_kata.Container.Process.Handshake.{container_exec_cloned}
use vibe_kata.Lifecycle.Defs.{create, as_running, as_stopped, new_container}
use vibe_kata.Lifecycle.Context.{Prepared}
use vibe_kata.Lifecycle.Start.{launch, attach_to, exit_code_of}
use vibe_kata.Lifecycle.Created.{create_flushes, create_stores}
use vibe_kata.Lifecycle.Checked.{PidsFit}
use vibe_kata.Lifecycle.Started.{load-save_held}
use vibe_kata.Lifecycle.Frame.{Undisturbed, read-container_exec}
use vibe_kata.Lifecycle.Change.{Change, same, creation, launching, ending}
use vibe_kata.Lifecycle.Steps.{Saves, IsUsable}

module _ {W J T : Type 0} (fs : Files W T) (js : Jansson J T) (env : Env) (k : Kernel W)
    (c : Container) where
  -- The worlds that the branches of `launch` end in.
  failed :
      (ctx : Context) (attach : Bool) (w : W)
      → (container_exec fs k ctx w).0 ≡ none
      → launch fs js env k c ctx attach w ≡ (none, (container_exec fs k ctx w).1)
  unfolding launch
  failed ctx attach w e = ground (arith, e)

  detached :
      (ctx : Context) (w : W) (pid : ℤ)
      → (container_exec fs k ctx w).0 ≡ some pid
      → launch fs js env k c ctx false w
        ≡ (some 0, (State.save fs js env (as_running c pid) (container_exec fs k ctx w).1).1)
  unfolding launch
  detached ctx w pid e = ground (arith, e)

  attached :
      (ctx : Context) (w : W) (pid : ℤ)
      → (container_exec fs k ctx w).0 ≡ some pid
      → launch fs js env k c ctx true w
        ≡ attach_to fs js env k c pid
            (State.save fs js env (as_running c pid) (container_exec fs k ctx w).1).1
  unfolding launch
  attached ctx w pid e = ground (arith, e)

  wait_failed :
      (pid : ℤ) (w : W)
      → (k.waitpid pid w).0 ≡ none
      → attach_to fs js env k c pid w ≡ (none, (k.waitpid pid w).1)
  unfolding attach_to container_wait
  wait_failed pid w e = ground (arith, e)

  waited :
      (pid : ℤ) (w : W) (status : WaitStatus)
      → (k.waitpid pid w).0 ≡ some status
      → attach_to fs js env k c pid w
        ≡ (some (exit_code_of status), (State.save fs js env (as_stopped c) (k.waitpid pid w).1).1)
  unfolding attach_to container_wait
  waited pid w status e = ground (arith, e)

module _ {W J T : Type 0} {fs : Files W T} {js : Jansson J T} (env : Env) (k : Kernel W)
    {same_file : CString → CString → Bool} (F : Files.IsLawful fs same_file)
    (L : Jansson.IsLawful js) (i : CString) (encodes : is_some (js.string i) ≡ true)
    (U : Undisturbed fs k (get_container_state_path env i)) where
  -- What is stored for the container.
  abbrev pub at : W → Option Container
  at w = State.load fs js env i w

  abbrev pub path : CString
  path = get_container_state_path env i

  pub unchanged : (v w : W) → fs.read path v ≡ fs.read path w → Change i (at w) (at v)
  unchanged v w e = same (load_of_read js env F i v w e)

  pub create-Change :
      (opts : Options) (w : W)
      → IsUsable fs js env k opts
      → at w ≡ none
      → (create fs js env opts i w).0 ≡ some tt
      → create_flushes fs js env opts i w ≡ true
      → Change i (at w) (at (create fs js env opts i w).1)
  unfolding new_container
  create-Change opts w u absent made flushed =
      let (_, _, stored) =
        create_stores js env F L opts i w made flushed u.full encodes u.encodes in
      creation _ absent stored refl refl refl

  module _ (fit : PidsFit k) (w : W) (p : Prepared) (named : p.stored.id ≡ some i)
      (loaded : at w ≡ some p.stored) (fresh : p.stored.state ≡ created) (ctx : Context) where
    launched :
        (pid : ℤ)
        → (container_exec fs k ctx w).0 ≡ some pid
        → Saves fs js env k (as_running p.stored pid) (container_exec fs k ctx w).1
        → at (State.save fs js env (as_running p.stored pid) (container_exec fs k ctx w).1).1
          ≡ some (as_running p.stored pid)
    launched pid run saved =
        let (fds, cloned) = container_exec_cloned fs k ctx w {pid = pid} run in
        load-save_held env k F L i w _ p.stored running pid loaded named encodes (ground arith)
          (fit.fits _ _ _ cloned) saved

    pub launch-Change :
        ((pid : ℤ)
          → (container_exec fs k ctx w).0 ≡ some pid
          → Saves fs js env k (as_running p.stored pid) (container_exec fs k ctx w).1)
        → Change i (at w) (at (launch fs js env k p.stored ctx false w).1)
    launch-Change saved = elim (Option-cases (container_exec fs k ctx w).0) [
      | inl e ↦
          rw (failed fs js env k p.stored ctx false w e)
            (unchanged _ w (read-container_exec U ctx w))
      | inr (pid, e) ↦
          let (fds, cloned) = container_exec_cloned fs k ctx w {pid = pid} e in
          rw (detached fs js env k p.stored ctx w pid e) (
            launching p.stored pid loaded fresh (fit.fits _ _ _ cloned)
              (launched pid e (saved pid e)))
    ]

    pub attach-Change :
        ((pid : ℤ)
          → (container_exec fs k ctx w).0 ≡ some pid
          → Saves fs js env k (as_running p.stored pid) (container_exec fs k ctx w).1)
        → ((pid : ℤ)
            → (container_exec fs k ctx w).0 ≡ some pid
            → Saves fs js env k
                (as_stopped p.stored)
                (k.waitpid pid
                  (State.save fs js env
                    (as_running p.stored pid)
                    (container_exec fs k ctx w).1).1).1)
        → Change i (at w) (at (launch fs js env k p.stored ctx true w).1)
    attach-Change saved ended = elim (Option-cases (container_exec fs k ctx w).0) [
      | inl e ↦
          rw (failed fs js env k p.stored ctx true w e)
            (unchanged _ w (read-container_exec U ctx w))
      | inr (pid, e) ↦
          let w1 =
            (State.save fs js env (as_running p.stored pid) (container_exec fs k ctx w).1).1 in
          let (fds, cloned) = container_exec_cloned fs k ctx w {pid = pid} e in
          rw (attached fs js env k p.stored ctx w pid e) (elim (Option-cases (k.waitpid pid w1).0) [
            | inl q ↦ rw (wait_failed fs js env k p.stored pid w1 q) (
                launching p.stored pid loaded fresh (fit.fits _ _ _ cloned) (
                  load_of_read js env F i _ _ (U.read-waitpid pid w1)
                  ∙ launched pid e (saved pid e)))
            | inr (status, q) ↦ rw (waited fs js env k p.stored pid w1 status q) (
                ending p.stored loaded (ground arith) (
                  load-save_held env k F L i w _ p.stored stopped (pos 0) loaded named encodes
                    (ground arith) (omega arith) (ended pid e)))
          ])
    ]
