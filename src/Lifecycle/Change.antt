-- ===== src/Lifecycle/Change.antt =====
-- The life of a container as a state machine: what the commands may make of what is stored for an id,
-- whatever the files look like. It is the specification that src/main.c implements.
use vibe_kata.Base.{◌≡◌, ◌≢◌, refl, sym, ◌∙◌, ap, subst, ◌⊎◌, inl, inr, Option, none, some, arith}
use mathlib.Core.Option.{some-injective}
use vibe_kata.Base.Int.{ℤ, pos, IsInt32}
use vibe_kata.Base.Bytes.{CString}
use vibe_kata.Types.{created, running, stopped, Container}

-- A container as the commands leave it: created or stopped with no process, or running.
pub data IsSettled (c : Container) : Type 0 where
  is_created : c.state ≡ created → c.init_pid ≡ pos 0 → IsSettled c
  is_running : c.state ≡ running → IsInt32 c.init_pid → IsSettled c
  is_stopped : c.state ≡ stopped → c.init_pid ≡ pos 0 → IsSettled c

-- A launched container has a process, an ended one has none; nothing else of it changes.
abbrev pub launched : Container → ℤ → Container
launched c pid = record c { state = running; init_pid = pid }

abbrev pub ended : Container → Container
ended c = record c { state = stopped; init_pid = pos 0 }

-- What one command may make of what is stored for the id.
pub data Change (i : CString) (o o' : Option Container) : Type 0 where
  same : o' ≡ o → Change i o o'
  creation :
      (c : Container)
      → o ≡ none
      → o' ≡ some c
      → c.id ≡ some i
      → c.state ≡ created
      → c.init_pid ≡ pos 0
      → Change i o o'
  launching :
      (c : Container) (pid : ℤ)
      → o ≡ some c
      → c.state ≡ created
      → IsInt32 pid
      → o' ≡ some (launched c pid)
      → Change i o o'
  ending : (c : Container) → o ≡ some c → c.state ≢ stopped → o' ≡ some (ended c) → Change i o o'
  removal : o' ≡ none → Change i o o'

-- A sequence of changes.
pub data Life (i : CString) (o : Option Container) : Option Container → Type 0 where
  here : Life i o o
  next : {o₁ o₂ : Option Container} → Life i o o₁ → Change i o₁ o₂ → Life i o o₂

-- A stored container names the id that it is stored for.
abbrev pub IsNamed : CString → Option Container → Type 0
IsNamed i o = (c : Container) → o ≡ some c → c.id ≡ some i

-- What is stored, if anything is, is settled.
abbrev pub AllSettled : Option Container → Type 0
AllSettled o = (c : Container) → o ≡ some c → IsSettled c

unique : (o : Option Container) (c d : Container) → o ≡ some c → o ≡ some d → c ≡ d
unique o c d p q = some-injective c d (sym p ∙ q)

module _ {i : CString} {o o' : Option Container} where
  pub Change-IsNamed : Change i o o' → IsNamed i o → IsNamed i o'
  Change-IsNamed (same e) n d h = n d (sym e ∙ h)
  Change-IsNamed (creation c _ e named _ _) n d h =
      subst (λ (x : Container). x.id ≡ some i) (unique o' c d e h) named
  Change-IsNamed (launching c pid l _ _ e) n d h =
      subst (λ (x : Container). x.id ≡ some i) (unique o' (launched c pid) d e h) (n c l)
  Change-IsNamed (ending c l _ e) n d h =
      subst (λ (x : Container). x.id ≡ some i) (unique o' (ended c) d e h) (n c l)
  Change-IsNamed (removal e) n d h = cc

  pub Change-AllSettled : Change i o o' → AllSettled o → AllSettled o'
  Change-AllSettled (same e) n d h = n d (sym e ∙ h)
  Change-AllSettled (creation c _ e _ s z) n d h =
      subst IsSettled (unique o' c d e h) (is_created s z)
  Change-AllSettled (launching c pid l _ fits e) n d h =
      subst IsSettled (unique o' (launched c pid) d e h) (is_running refl fits)
  Change-AllSettled (ending c l _ e) n d h =
      subst IsSettled (unique o' (ended c) d e h) (is_stopped refl refl)
  Change-AllSettled (removal e) n d h = cc

  -- A stopped container changes only by its removal.
  pub Change-stopped :
      (c : Container) → Change i o o' → o ≡ some c → c.state ≡ stopped → (o' ≡ some c) ⊎ (o' ≡ none)
  Change-stopped c (same e) h s = inl (e ∙ h)
  Change-stopped c (creation d e _ _ _ _) h s = cc
  Change-stopped c (launching d pid l st _ _) h s =
      let same_state : d.state ≡ c.state = ap (λ (x : Container). x.state) (unique o d c l h) in
      absurd (ground (arith, same_state))
  Change-stopped c (ending d l st _) h s =
      absurd (st (ap (λ (x : Container). x.state) (unique o d c l h) ∙ s))
  Change-stopped c (removal e) h s = inr e

  -- What a change leaves of a container: its bundle and its mode.
  pub Change-fixed :
      (c : Container)
      → Change i o o'
      → o ≡ some c
      → (o' ≡ none)
        ⊎ ((d : Container) × (o' ≡ some d) × (d.bundle_path ≡ c.bundle_path) × (d.mode ≡ c.mode))
  Change-fixed c (same e) h = inr (c, e ∙ h, refl, refl)
  Change-fixed c (creation d e _ _ _ _) h = cc
  Change-fixed c (launching d pid l _ _ e) h =
      let same_one : d ≡ c = unique o d c l h in
      inr (
        launched d pid,
        e,
        ap (λ (x : Container). x.bundle_path) same_one,
        ap (λ (x : Container). x.mode) same_one,
      )
  Change-fixed c (ending d l _ e) h =
      let same_one : d ≡ c = unique o d c l h in
      inr (
        ended d,
        e,
        ap (λ (x : Container). x.bundle_path) same_one,
        ap (λ (x : Container). x.mode) same_one,
      )
  Change-fixed c (removal e) h = inl e

module _ {i : CString} {o : Option Container} where
  pub Life-IsNamed : {o' : Option Container} → Life i o o' → IsNamed i o → IsNamed i o'
  Life-IsNamed here n = n
  Life-IsNamed (next l c) n = Change-IsNamed c (Life-IsNamed l n)

  pub Life-AllSettled : {o' : Option Container} → Life i o o' → AllSettled o → AllSettled o'
  Life-AllSettled here n = n
  Life-AllSettled (next l c) n = Change-AllSettled c (Life-AllSettled l n)
