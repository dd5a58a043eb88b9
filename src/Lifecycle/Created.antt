-- ===== src/Lifecycle/Created.antt =====
-- What `nk_container_create` does on each branch.
use vibe_kata.Base.{
  ◌≡◌, refl, ◌≢◌, ◌∙◌, ap, Bool, true, false, Option, none, some, Option-cases, inl, inr, ◌⊎◌, [],
  arith, is_some,
}
use vibe_kata.Base.Int.{pos, negsuc}
use vibe_kata.Base.Bytes.{CString}
use vibe_kata.Effects.Keeps.{Keeps, bind_of_none, bind_of_some, bind_eq_some}
use vibe_kata.Files
use vibe_kata.Files.{Files, Kind, directory, regular, special}
use vibe_kata.Jansson
use vibe_kata.Jansson.{Jansson}
use vibe_kata.Types.{created, Options}
use vibe_kata.State
use vibe_kata.State.{Env, get_container_state_path, parse_state, is_regular, mkdir_p}
use vibe_kata.State.Paths.{read-mkdir_p, kind-mkdir_p}
use vibe_kata.State.Frame.{load_of_read}
use vibe_kata.State.Saved.{save_flushes}
use vibe_kata.State.RoundTrip.{load-save}
use vibe_kata.Lifecycle.StateDir.{choose_state_dir}
use vibe_kata.Lifecycle.Defs.{ensure_state_dir, has_valid_spec, new_container, create_new, create}

module _ {W T : Type 0} {fs : Files W T} (env : Env) {same : CString → CString → Bool}
    (F : Files.IsLawful fs same) where
  pub read-ensure_state_dir :
      (q : CString) (r : Option T) → Keeps (λ w. fs.read q w ≡ r) (ensure_state_dir fs env)
  unfolding ensure_state_dir
  read-ensure_state_dir q r = record {
    at = λ w h. ground (arith, (read-mkdir_p F (choose_state_dir env).0 q 0o755 r).at w h);
  }

  kind-ensure_state_dir :
      (q : CString) (kd : Kind) → Keeps (λ w. fs.stat q w ≡ some kd) (ensure_state_dir fs env)
  unfolding ensure_state_dir
  kind-ensure_state_dir q kd = record {
    at = λ w h. ground (arith, (kind-mkdir_p F (choose_state_dir env).0 q 0o755 kd).at w h);
  }

module _ {W J T : Type 0} (fs : Files W T) (js : Jansson J T) (env : Env) where
  -- What `fclose` says where `nk_container_create` stores the new container.
  abbrev pub create_flushes : Options → CString → W → Bool
  create_flushes opts i w =
      save_flushes fs js env (new_container opts i) (ensure_state_dir fs env w).1

regular_of : (o : Option Kind) → is_regular o ≡ true → o ≡ some regular
regular_of none h = cc
regular_of (some directory) h = cc
regular_of (some regular) h = refl
regular_of (some special) h = cc

module _ {W J T : Type 0} {fs : Files W T} (js : Jansson J T) (env : Env)
    {same : CString → CString → Bool} (F : Files.IsLawful fs same) where
  create_new_existing :
      (opts : Options) (i : CString) (w : W)
      → State.exists fs env i w ≡ true
      → create_new fs js env opts i w ≡ (none, w)
  unfolding create_new
  create_new_existing opts i w h = rw h

  -- `nk_container_create` fails for an id whose state file is there, and nothing changes that
  -- `nk_state_load` returns for any container.
  pub create_existing :
      (opts : Options) (i j : CString) (w : W)
      → State.exists fs env i w ≡ true
      → ((create fs js env opts i w).0 ≡ none)
        × (State.load fs js env j (create fs js env opts i w).1 ≡ State.load fs js env j w)
  unfolding create State.exists
  create_existing opts i j w h =
      let q = get_container_state_path env j in
      let w1 = (ensure_state_dir fs env w).1 in
      let there : State.exists fs env i w1 ≡ true = ap is_regular (
        (kind-ensure_state_dir env F (get_container_state_path env i) regular).at w
          (regular_of _ h)) in
      let kept : fs.read q w1 ≡ fs.read q w =
        (read-ensure_state_dir env F q (fs.read q w)).at w refl in
      let whole : create fs js env opts i w ≡ (none, w1) =
        elim (Option-cases (ensure_state_dir fs env w).0) [
          | inl failed ↦
              bind_of_none (ensure_state_dir fs env) (λ _. create_new fs js env opts i) w failed
          | inr (_, made) ↦
              bind_of_some (ensure_state_dir fs env) (λ _. create_new fs js env opts i) w made
              ∙ create_new_existing opts i w1 there
        ] in
      rw whole (refl, load_of_read js env F j w1 w kept)

  create_new_invalid :
      (opts : Options) (i : CString) (w : W)
      → has_valid_spec fs js env opts.bundle_path w ≡ false
      → create_new fs js env opts i w ≡ (none, w)
  unfolding create_new
  create_new_invalid opts i w h = ground (arith, h)

  -- `nk_container_create` fails, and changes nothing that `nk_state_load` returns for any container,
  -- where the state directory cannot be made or the bundle has no valid specification.
  pub create_unstored :
      (opts : Options) (i j : CString) (w : W)
      → ((ensure_state_dir fs env w).0 ≡ none)
        ⊎ (has_valid_spec fs js env opts.bundle_path (ensure_state_dir fs env w).1 ≡ false)
      → ((create fs js env opts i w).0 ≡ none)
        × (State.load fs js env j (create fs js env opts i w).1 ≡ State.load fs js env j w)
  unfolding create
  create_unstored opts i j w h =
      let q = get_container_state_path env j in
      let w1 = (ensure_state_dir fs env w).1 in
      let kept : fs.read q w1 ≡ fs.read q w =
        (read-ensure_state_dir env F q (fs.read q w)).at w refl in
      let new = λ (_ : Unit {0}). create_new fs js env opts i in
      let whole : create fs js env opts i w ≡ (none, w1) =
        elim (Option-cases (ensure_state_dir fs env w).0) [
          | inl failed ↦ bind_of_none (ensure_state_dir fs env) new w failed
          | inr (_, made) ↦
              bind_of_some (ensure_state_dir fs env) new w made
              ∙ create_new_invalid opts i w1 (elim h [
                | inl missing ↦ absurd (ground (arith, made, missing))
                | inr invalid ↦ invalid
              ])
        ] in
      rw whole (refl, load_of_read js env F j w1 w kept)

  create_new_stores :
      (opts : Options) (i : CString) (w : W)
      → (create_new fs js env opts i w).0 ≡ some tt
      → (State.exists fs env i w ≡ false)
        × (has_valid_spec fs js env opts.bundle_path w ≡ true)
        × (create_new fs js env opts i w ≡ State.save fs js env (new_container opts i) w)
  unfolding create_new
  create_new_stores opts i w h = ground arith

  pub create_stores :
      Jansson.IsLawful js
      → (opts : Options) (i : CString) (w : W) → (create fs js env opts i w).0 ≡ some tt
      → create_flushes fs js env opts i w ≡ true
      → opts.bundle_path ≢ []
      → is_some (js.string i) ≡ true
      → is_some (js.string opts.bundle_path) ≡ true
      → let w1 = (ensure_state_dir fs env w).1 in
        (State.exists fs env i w1 ≡ false)
        × (has_valid_spec fs js env opts.bundle_path w1 ≡ true)
        × (State.load fs js env i (create fs js env opts i w).1
            ≡ some (record {
              id = some i;
              bundle_path = some opts.bundle_path;
              state = created;
              mode = opts.mode;
              init_pid = pos 0;
              state_file = some (get_container_state_path env i);
              control_fd = negsuc 0;
            }))
  unfolding create new_container
  create_stores L opts i w h flushed full e1 e2 =
      let (_, made, whole) =
        bind_eq_some (ensure_state_dir fs env) (λ _. create_new fs js env opts i) w h in
      let w1 = (ensure_state_dir fs env w).1 in
      let (absent, valid, saved) = create_new_stores opts i w1 (rw whole at h) in
      rw (whole, saved)
        (
          absent,
          valid,
          load-save env F L (new_container opts i) i w1 (rw (whole, saved) at h, flushed) refl
              (ground arith) (ground arith) (omega arith) e1 e2,
        )
