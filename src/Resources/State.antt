-- ===== src/Resources/State.antt =====
-- The state files: src/common/state.c opens and closes its files by itself, and signals nobody.
use vibe_kata.Base.{Bool, ◌≡◌, ℕ, Option-cases, inl, inr, arith}
use vibe_kata.Base.Int.{ℤ}
use vibe_kata.Base.Bytes.{CString}
use vibe_kata.Effects.Keeps.{Keeps, Keeps-then, Keeps-bind, Keeps-lift}
use vibe_kata.Files.{Files}
use vibe_kata.Jansson.{Jansson}
use vibe_kata.Types.{Container, Options}
use vibe_kata.State
use vibe_kata.State.{
  Env, get_state_dir, get_container_dir, get_container_state_path, mkdir_p, mkdir_or_exists,
  ensure_container_dir, make_container_dir, write_state, dump_to, state_to_json,
}
use vibe_kata.State.Paths.{mkdir_p-Keeps}
use vibe_kata.Container.Kernel.{Kernel}
use vibe_kata.Lifecycle.{ensure_state_dir, create_new, create, new_container}
use vibe_kata.Lifecycle.StateDir.{choose_state_dir}
use vibe_kata.Resources.{Books, KeepsBooks}

module _ {W T : Type 0} {fs : Files W T} {k : Kernel W} {own : ℤ → Bool} {books : W → Books}
    (B : KeepsBooks own fs k books) (b : Books) where
  abbrev pub At : W → Type 0
  At w = books w ≡ b

  At-mkdir_or_exists : (p : CString) (mode : ℕ) → Keeps At (mkdir_or_exists fs p mode)
  unfolding mkdir_or_exists
  At-mkdir_or_exists p mode = record { at = λ w h. ground (arith, B.books-mkdir p mode w) }

  At-mkdir_p : (p : CString) (mode : ℕ) → Keeps At (mkdir_p fs p mode)
  At-mkdir_p p mode = mkdir_p-Keeps fs At At-mkdir_or_exists p mode

  module _ {J : Type 0} (js : Jansson J T) (env : Env) where
    At-ensure_container_dir : (i : CString) → Keeps At (ensure_container_dir fs env i)
    unfolding ensure_container_dir make_container_dir
    At-ensure_container_dir i =
        Keeps-then _ (make_container_dir fs env (get_container_dir env i))
          (At-mkdir_p (get_state_dir env) 0o755)
          (record { at = λ w h. ground (arith, B.books-mkdir (get_container_dir env i) 0o755 w) })

    At-write_state : (p : CString) (root : J) → Keeps At (write_state fs js p root)
    unfolding write_state dump_to
    At-write_state p root = record {
      at = λ w h. elim (Option-cases (js.dumps root)) [
        | inl e ↦
            let w1 = (fs.open_write p w).1 in
            ground (arith, e, B.books-open_write p w, B.books-close_contents p w1)
        | inr (t, e) ↦
            let w1 = (fs.open_write p w).1 in
            let w2 = (fs.write p t w1).1 in
            ground (
              arith,
              e,
              B.books-open_write p w,
              B.books-write_contents p t w1,
              B.books-close_contents p w2,
            )
      ];
    }

    pub At-save : (c : Container) → Keeps At (State.save fs js env c)
    unfolding State.save
    At-save c =
        Keeps-bind _ _ (Keeps-lift c.id)
          (λ i. Keeps-then _ _ (At-ensure_container_dir i) (At-write_state _ _))

    pub At-delete : (i : CString) → Keeps At (State.delete fs env i)
    unfolding State.delete
    At-delete i = record {
      at = λ w h. ground (
        arith,
        B.books-unlink (get_container_state_path env i) w,
        B.books-rmdir (get_container_dir env i) (fs.unlink (get_container_state_path env i) w).1,
      );
    }

    At-ensure_state_dir : Keeps At (ensure_state_dir fs env)
    unfolding ensure_state_dir
    At-ensure_state_dir = record {
      at = λ w h. ground (arith, (At-mkdir_p (choose_state_dir env).0 0o755).at w h);
    }

    At-create_new : (opts : Options) (i : CString) → Keeps At (create_new fs js env opts i)
    unfolding create_new
    At-create_new opts i = record {
      at = λ w h. ground (arith, (At-save (new_container opts i)).at w h);
    }

    pub At-create : (opts : Options) (i : CString) → Keeps At (create fs js env opts i)
    unfolding create
    At-create opts i = Keeps-then _ _ At-ensure_state_dir (At-create_new opts i)
