-- ===== src/Lifecycle/History.antt =====
-- What holds of every container, whatever commands are run on whatever containers.
use vibe_kata.Base.{
  ◌≡◌, refl, ◌∙◌, subst, Bool, true, false, Bool-cases, Option, none, some, inl, inr, ◌⊎◌, arith,
  is_some,
}
use vibe_kata.Base.Bytes.{CString}
use vibe_kata.Files
use vibe_kata.Files.{Files}
use vibe_kata.Jansson
use vibe_kata.Jansson.{Jansson}
use vibe_kata.Types.{stopped, Container}
use vibe_kata.State
use vibe_kata.State.{Env, get_container_state_path}
use vibe_kata.Container.Kernel.{Kernel}
use vibe_kata.Lifecycle.Checked.{PidsFit}
use vibe_kata.Lifecycle.Frame.{Undisturbed}
use vibe_kata.Lifecycle.Implements.{Step-Change}
use vibe_kata.Lifecycle.Apart.{load-Step_other}
use vibe_kata.Lifecycle.Change.{
  Life, here, next, IsSettled, Life-IsNamed, Life-AllSettled, Change-stopped, Change-fixed, Change,
  same, IsNamed,
}
use vibe_kata.Lifecycle.Steps.{Removed, Reach, start_at, then_step, Step}
use vibe_kata.Base.Bytes.{str_eq, str_eq_iff}

module _ {W J T : Type 0} {fs : Files W T} {js : Jansson J T} (env : Env) (k : Kernel W)
    {same_file : CString → CString → Bool} (F : Files.IsLawful fs same_file)
    (L : Jansson.IsLawful js) (fit : PidsFit k) (ids : CString → Type 0)
    (encodes : (i : CString) → ids i → is_some (js.string i) ≡ true)
    (apart : (i j : CString)
      → ids i
      → ids j
      → str_eq i j ≡ false
      → same_file (get_container_state_path env i) (get_container_state_path env j) ≡ false)
    (U : (i : CString) → ids i → Undisturbed fs k (get_container_state_path env i)) where
  abbrev stored : CString → W → Option Container
  stored i w = State.load fs js env i w

  -- A command on any container is a change of each.
  Step-Change_all :
      (i j : CString) {w w' : W}
      → ids i
      → ids j
      → Step fs js env k i w w'
      → IsNamed i (stored i w)
      → Change j (stored j w) (stored j w')
  Step-Change_all i j {w} {w'} m n st named = elim (Bool-cases (str_eq i j)) [
    | inl alike ↦
        subst (λ x. Change x (stored x w) (stored x w')) ((str_eq_iff i j).0 alike)
          (Step-Change env k F L i (encodes i m) (U i m) fit {w = w} {w' = w'} st named)
    | inr differ ↦
        same
          (load-Step_other env k F L i j (apart i j m n differ) (U j n) {w = w} {w' = w'} st named)
  ]

  abbrev AllNamed : W → Type 0
  AllNamed w = (j : CString) → ids j → IsNamed j (stored j w)

  -- Any sequence of commands on any containers does to each of them a sequence of changes of the
  -- life cycle, whatever is done to the others in between. This is for containers whose ids are
  -- valid UTF-8 and whose state files are different files, each of which names its own container at
  -- first, for a `clone` that returns process ids of 32 bits, and for calls on processes, pipes and
  -- control files that leave the state files as they are. The stores, `fclose` included, and the
  -- deletions that the commands make succeed.
  pub Reach-Life :
      {w v : W}
      → ((j : CString) → ids j → IsNamed j (State.load fs js env j w))
      → Reach fs js env k ids w v
      → (j : CString) → ids j
      → Life j (State.load fs js env j w) (State.load fs js env j v)
  Reach-Life n start_at j m = here
  Reach-Life {w} n (then_step {u} {v} i r mi st) j m =
      next (Reach-Life n r j m)
        (Step-Change_all i j {w = u} {w' = v} mi m st (Life-IsNamed (Reach-Life n r i mi) (n i mi)))

  -- After any sequence of commands from a state in which nothing is stored, each container that is
  -- stored has its own id and is created with no process, running with a process id of 32 bits, or
  -- stopped with no process. This is for containers whose ids are valid UTF-8 and whose state files
  -- are different files, for a `clone` that returns process ids of 32 bits, and for calls on
  -- processes, pipes and control files that leave the state files as they are. The stores, `fclose`
  -- included, and the deletions that the commands make succeed.
  pub Reach-IsSettled :
      {w v : W}
      → ((j : CString) → ids j → State.load fs js env j w ≡ none)
      → Reach fs js env k ids w v
      → (j : CString) (c : Container) → ids j
      → State.load fs js env j v ≡ some c
      → (c.id ≡ some j) × IsSettled c
  Reach-IsSettled {w} {v} empty r j c m h =
      let life =
        Reach-Life {w = w} {v = v} (λ x mx d e. absurd (ground (arith, empty x mx, e))) r j m in
      (
        Life-IsNamed life (λ d e. absurd (ground (arith, empty j m, e))) c h,
        Life-AllSettled life (λ d e. absurd (ground (arith, empty j m, e))) c h,
      )

  module _ (w : W) (n : (j : CString) → ids j → IsNamed j (State.load fs js env j w)) (j : CString)
      (m : ids j) (c : Container) where
    Change-last :
        {u v : W} (i : CString)
        → Reach fs js env k ids w u
        → ids i
        → Step fs js env k i u v
        → Change j (stored j u) (stored j v)
    Change-last {u} {v} i r mi st =
        Step-Change_all i j {w = u} {w' = v} mi m st (Life-IsNamed (Reach-Life n r i mi) (n i mi))

    -- After any sequence of commands a container that was stored as stopped is stored just as it
    -- was, or its id was free in a state in between. This is for containers whose ids are valid
    -- UTF-8 and whose state files are different files, each of which names its own container at
    -- first, for a `clone` that returns process ids of 32 bits, and for calls on processes, pipes
    -- and control files that leave the state files as they are. The stores, `fclose` included, and
    -- the deletions that the commands make succeed.
    pub Reach-stopped :
        {v : W}
        → Reach fs js env k ids w v
        → State.load fs js env j w ≡ some c
        → c.state ≡ stopped
        → (State.load fs js env j v ≡ some c) ⊎ Removed fs js env k ids j w v
    Reach-stopped start_at h s = inl h
    Reach-stopped (then_step {u} {v} i r mi st) h s = elim (Reach-stopped r h s) [
      | inl kept ↦ elim (Change-stopped c (Change-last i r mi st) kept s) [
        | inl e ↦ inl e
        | inr e ↦ inr (v, then_step i r mi st, e, start_at)
      ]
      | inr (x, r1, e, r2) ↦ inr (x, r1, e, then_step i r2 mi st)
    ]

    -- After any sequence of commands a stored container has the bundle path and the mode that it
    -- had, or its id was free in a state in between. This is for containers whose ids are valid
    -- UTF-8 and whose state files are different files, each of which names its own container at
    -- first, for a `clone` that returns process ids of 32 bits, and for calls on processes, pipes
    -- and control files that leave the state files as they are. The stores, `fclose` included, and
    -- the deletions that the commands make succeed.
    pub Reach-fixed :
        {v : W}
        → Reach fs js env k ids w v
        → State.load fs js env j w ≡ some c
        → ((d : Container) × (State.load fs js env j v ≡ some d)
            × (d.bundle_path ≡ c.bundle_path)
            × (d.mode ≡ c.mode))
          ⊎ Removed fs js env k ids j w v
    Reach-fixed start_at h = inl (c, h, refl, refl)
    Reach-fixed (then_step {u} {v} i r mi st) h = elim (Reach-fixed r h) [
      | inl (d, kept, b, o) ↦ elim (Change-fixed d (Change-last i r mi st) kept) [
        | inl e ↦ inr (v, then_step i r mi st, e, start_at)
        | inr (d', e, b', o') ↦ inl (d', e, b' ∙ b, o' ∙ o)
      ]
      | inr (x, r1, e, r2) ↦ inr (x, r1, e, then_step i r2 mi st)
    ]
