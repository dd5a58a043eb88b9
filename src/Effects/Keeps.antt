-- ===== src/Effects/Keeps.antt =====
-- Invariants of functions with effects, one rule for each way to build one.
use vibe_kata.Base.{
  ◌≡◌, Option-cases, inl, inr, arith, Bool, true, false, Option, none, some, if◌then◌else◌,
}
use vibe_kata.Effects.{M, pure, fail, lift, attempt, ◌>>=◌, ◌>>◌}

-- `m` keeps `P`, whether it returns a value or fails.
pub record Keeps {ℓ κ} {W : Type 0} {A : Type κ} (P : W → Type ℓ) (m : M W A) : Type ℓ where
  pub at : (w : W) → P w → P (m w).1

module _ {ℓ κ} {W : Type 0} {A : Type κ} {P : W → Type ℓ} where
  pub Keeps-pure : (a : A) → Keeps P (pure a)
  Keeps-pure a = record { at = λ w h. h }

  pub Keeps-fail : Keeps P (fail {A = A})
  Keeps-fail = record { at = λ w h. h }

  pub Keeps-lift : (r : Option A) → Keeps P (lift r)
  Keeps-lift r = record { at = λ w h. h }

  pub Keeps-attempt : (m : M W A) → Keeps P m → Keeps P (attempt m)
  Keeps-attempt m k = record { at = λ w h. k.at w h }

  pub Keeps-if : (b : Bool) (m n : M W A) → Keeps P m → Keeps P n → Keeps P (if b then m else n)
  Keeps-if true m n km kn = km
  Keeps-if false m n km kn = kn

module _ {ℓ κ ι} {W : Type 0} {A : Type κ} {B : Type ι} {P : W → Type ℓ} where
  continue_at :
      (r : Option A) (f : A → M W B) (w : W)
      → ((a : A) → Keeps P (f a))
      → P w
      → P (◌>>=◌ (lift r) f w).1
  continue_at none f w kf h = h
  continue_at (some a) f w kf h = (kf a).at w h

  pub Keeps-bind :
      (m : M W A) (f : A → M W B) → Keeps P m → ((a : A) → Keeps P (f a)) → Keeps P (m >>= f)
  Keeps-bind m f km kf = record {
    at = λ w h. let (r, w') = m w in continue_at r f w' kf (km.at w h);
  }

  pub Keeps-then : (m : M W A) (k : M W B) → Keeps P m → Keeps P k → Keeps P (m >> k)
  Keeps-then m k km kk = Keeps-bind m (λ _. k) km (λ _. kk)

-- A sequence that returns has run both parts.
pub then_eq_some {ι} :
    {W : Type 0} {B : Type ι} (m : M W (Unit {0})) (k : M W B) (w : W) {b : B}
    → ((m >> k) w).0 ≡ some b
    → ((m w).0 ≡ some tt) × ((m >> k) w ≡ k (m w).1)
then_eq_some m k w h = elim (Option-cases (m w).0) [
  | inl failed ↦ absurd (ground (arith, failed))
  | inr (tt, made) ↦ (made, ground (arith, made))
]

module _ {ι κ} {W : Type 0} {A : Type ι} {B : Type κ} where
  -- A bind at what its first part does.
  pub bind_of_none :
      (m : M W A) (f : A → M W B) (w : W) → (m w).0 ≡ none → (m >>= f) w ≡ (none, (m w).1)
  bind_of_none m f w h = ground (arith, h)

  pub bind_of_some :
      (m : M W A) (f : A → M W B) (w : W) {a : A} → (m w).0 ≡ some a → (m >>= f) w ≡ f a (m w).1
  bind_of_some m f w h = ground (arith, h)

  pub bind_eq_some :
      (m : M W A) (f : A → M W B) (w : W) {b : B}
      → ((m >>= f) w).0 ≡ some b
      → (a : A) × ((m w).0 ≡ some a) × ((m >>= f) w ≡ f a (m w).1)
  bind_eq_some m f w h = elim (Option-cases (m w).0) [
    | inl failed ↦ absurd (ground (arith, failed))
    | inr (a, made) ↦ (a, made, bind_of_some m f w made)
  ]
