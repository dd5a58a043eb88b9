-- ===== src/Effects.antt =====
-- Functions with effects on a world `W` that may fail: `none` is the -1 or the NULL that the C function
-- returns, with the effects made before the return kept.
pub mod Keeps
use vibe_kata.Base.{Option, none, some}

abbrev pub M {ℓ} : Type 0 → Type ℓ → Type ℓ
M W A = W → Option A × W

module _ {W : Type 0} where
  abbrev pub pure {ℓ} : {A : Type ℓ} → A → M W A
  pure a w = (some a, w)

  -- `return -1`
  abbrev pub fail {ℓ} : {A : Type ℓ} → M W A
  fail w = (none, w)

  infixl 5 ◌>>=◌ ◌>>◌
  abbrev pub ◌>>=◌ {ℓ κ} : {A : Type ℓ} {B : Type κ} → M W A → (A → M W B) → M W B
  ◌>>=◌ m f w = let (r, w') = m w in elim r [ none ↦ (none, w') | some a ↦ f a w' ]

  abbrev pub ◌>>◌ {ℓ κ} : {A : Type ℓ} {B : Type κ} → M W A → M W B → M W B
  m >> k = m >>= λ _. k

  -- A call whose failure the caller tests for, or ignores.
  abbrev pub attempt {ℓ} : {A : Type ℓ} → M W A → M W (Option A)
  attempt m w = let (r, w') = m w in (some r, w')

  abbrev pub lift {ℓ} : {A : Type ℓ} → Option A → M W A
  lift r w = (r, w)
