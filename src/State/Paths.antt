-- ===== src/State/Paths.antt =====
-- What `mkdir_p` leaves: the directory with all those above it, and every file as it was.
use vibe_kata.Base.{ℕ, ◌≡◌, Bool, Option, some, [], ◌∷◌, ◌++◌, arith, leb, ◌||◌, ◌==◌, length}
use vibe_kata.Base.Bytes.{CString}
use vibe_kata.Effects.Keeps.{Keeps, Keeps-pure, Keeps-fail, Keeps-if, Keeps-then}
use vibe_kata.Files
use vibe_kata.Files.{Errno, Kind, enoent, eexist, einval, eperm, other, Files}
use vibe_kata.State.Dir.{strip_slash, mkdir_or_exists, mkdir_loop, mkdir_parents, mkdir_p, path_max}

-- What a single `mkdir` keeps, `mkdir_p` keeps.
module _ {ℓ} {W T : Type 0} (fs : Files W T) (P : W → Type ℓ)
    (step : (p : CString) (mode : ℕ) → Keeps P (mkdir_or_exists fs p mode)) where
  mkdir_loop-Keeps : (seen rest : CString) (mode : ℕ) → Keeps P (mkdir_loop fs seen rest mode)
  unfolding mkdir_loop
  mkdir_loop-Keeps seen [] mode = Keeps-pure tt
  mkdir_loop-Keeps seen (b ∷ rest) mode =
      let ih = mkdir_loop-Keeps (seen ++ (b ∷ [])) rest mode in
      Keeps-if (b == b'/') _ _ (Keeps-then _ _ (step seen mode) ih) ih

  mkdir_parents-Keeps : (path : CString) (mode : ℕ) → Keeps P (mkdir_parents fs path mode)
  unfolding mkdir_parents
  mkdir_parents-Keeps [] mode = Keeps-pure tt
  mkdir_parents-Keeps (b ∷ rest) mode = mkdir_loop-Keeps (b ∷ []) rest mode

  pub mkdir_p-Keeps : (path : CString) (mode : ℕ) → Keeps P (mkdir_p fs path mode)
  unfolding mkdir_p
  mkdir_p-Keeps path mode =
      Keeps-if (leb (length path) 0 || leb path_max (length path)) _ _ Keeps-fail (
        Keeps-then _ _ (mkdir_parents-Keeps (strip_slash path) mode) (step (strip_slash path) mode))

module _ {W T : Type 0} {fs : Files W T} {same : CString → CString → Bool}
    (F : Files.IsLawful fs same) where
  read-mkdir_or_exists :
      (p q : CString) (mode : ℕ) (r : Option T)
      → Keeps (λ w. fs.read q w ≡ r) (mkdir_or_exists fs p mode)
  unfolding mkdir_or_exists
  read-mkdir_or_exists p q mode r = record { at = λ w h. ground (arith, F.read-mkdir p q mode w) }

  kind-mkdir_or_exists :
      (p q : CString) (mode : ℕ) (kd : Kind)
      → Keeps (λ w. fs.stat q w ≡ some kd) (mkdir_or_exists fs p mode)
  unfolding mkdir_or_exists
  kind-mkdir_or_exists p q mode kd = record {
    at = λ w h. ground (arith, F.stat-mkdir_keeps p q mode w h);
  }

  -- `mkdir_p` changes the contents of no file.
  pub read-mkdir_p :
      (path q : CString) (mode : ℕ) (r : Option T)
      → Keeps (λ w. fs.read q w ≡ r) (mkdir_p fs path mode)
  read-mkdir_p path q mode r = mkdir_p-Keeps fs _ (λ p m. read-mkdir_or_exists p q m r) path mode

  -- What exists stays what it is.
  pub kind-mkdir_p :
      (path q : CString) (mode : ℕ) (kd : Kind)
      → Keeps (λ w. fs.stat q w ≡ some kd) (mkdir_p fs path mode)
  kind-mkdir_p path q mode kd = mkdir_p-Keeps fs _ (λ p m. kind-mkdir_or_exists p q m kd) path mode
