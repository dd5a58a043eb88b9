-- ===== src/State/Frame.antt =====
-- What `nk_state_save` and `nk_state_delete` do to the file of a container, and leave of the others.
use vibe_kata.Base.{
  ◌≡◌, refl, ◌∙◌, ap, Bool, true, false, Option, none, some, Option-cases, inl, inr, arith,
}
use vibe_kata.Base.Bytes.{CString}
use vibe_kata.Effects.Keeps.{Keeps, Keeps-then, then_eq_some}
use vibe_kata.Files
use vibe_kata.Files.{Files, Errno, Kind, directory, regular, special}
use vibe_kata.Jansson.{Jansson}
use vibe_kata.Types.{Container}
use vibe_kata.State.Dir.{Env, get_state_dir}
use vibe_kata.State.Paths.{read-mkdir_p}
use vibe_kata.State.Store.{
  make_container_dir, parse_state, is_regular, get_container_dir, get_container_state_path,
  state_to_json, ensure_container_dir, dump_to, write_state, save, load, delete, exists,
}
use vibe_kata.State.RoundTrip.{save_of_named}

module _ {W T : Type 0} {fs : Files W T} (env : Env) {same : CString → CString → Bool}
    (F : Files.IsLawful fs same) where
  read-ensure_container_dir :
      (i q : CString) (r : Option T) → Keeps (λ w. fs.read q w ≡ r) (ensure_container_dir fs env i)
  unfolding ensure_container_dir make_container_dir
  read-ensure_container_dir i q r =
      Keeps-then _ (make_container_dir fs env (get_container_dir env i))
        (read-mkdir_p F (get_state_dir env) q 0o755 r)
        (record { at = λ w h. ground (arith, F.read-mkdir (get_container_dir env i) q 0o755 w) })

module _ {W J T : Type 0} {fs : Files W T} (js : Jansson J T) (env : Env)
    {same : CString → CString → Bool} (F : Files.IsLawful fs same) where
  -- What `nk_state_load` returns depends on the contents of the state file alone.
  pub load_of_read :
      (j : CString) (v w : W)
      → fs.read (get_container_state_path env j) v ≡ fs.read (get_container_state_path env j) w
      → load fs js env j v ≡ load fs js env j w
  unfolding load
  load_of_read j v w e = ap (parse_state js (get_container_state_path env j)) e

  read-write_state :
      (p q : CString) (root : J) (r : Option T)
      → same p q ≡ false
      → Keeps (λ w. fs.read q w ≡ r) (write_state fs js p root)
  unfolding write_state dump_to
  read-write_state p q root r apart = record {
    at = λ w h. elim (Option-cases (js.dumps root)) [
      | inl e ↦
          let w1 = (fs.open_write p w).1 in
          ground (arith, e, F.read-open_write p q w, F.read-close_ne p q w1)
      | inr (t, e) ↦
          let w1 = (fs.open_write p w).1 in
          let w2 = (fs.write p t w1).1 in
          ground
            (arith, e, F.read-open_write p q w, F.read-write_ne p q t w1, F.read-close_ne p q w2)
    ];
  }

  -- Saving a container changes the contents of no file but its state file.
  pub read-save_ne :
      (c : Container) (i q : CString) (w : W)
      → c.id ≡ some i
      → same (get_container_state_path env i) q ≡ false
      → fs.read q (save fs js env c w).1 ≡ fs.read q w
  read-save_ne c i q w named apart = rw (save_of_named fs js env c i w named) (
      (Keeps-then _ _ (read-ensure_container_dir env F i q (fs.read q w)) (
          read-write_state (get_container_state_path env i) q (state_to_json js i c) (fs.read q w)
            apart)).at
        w refl)

  -- `nk_state_save` of one container, also where it fails, changes nothing that `nk_state_load`
  -- returns for a container whose state file is another file.
  pub load-save_ne :
      (c : Container) (i j : CString) (w : W)
      → c.id ≡ some i
      → same (get_container_state_path env i) (get_container_state_path env j) ≡ false
      → load fs js env j (save fs js env c w).1 ≡ load fs js env j w
  unfolding load
  load-save_ne c i j w named apart =
      ap (parse_state js (get_container_state_path env j)) (read-save_ne c i _ w named apart)

  -- `nk_state_delete` of one container, also where it fails, changes nothing that `nk_state_load`
  -- returns for a container whose state file is another file.
  pub load-delete_ne :
      (i j : CString) (w : W)
      → same (get_container_state_path env i) (get_container_state_path env j) ≡ false
      → load fs js env j (delete fs env i w).1 ≡ load fs js env j w
  unfolding load delete
  load-delete_ne i j w apart =
      ap (parse_state js (get_container_state_path env j))
        (F.read-rmdir _ _ _ ∙ F.read-unlink _ _ w apart)

  -- Where `nk_state_delete` returns 0, `nk_state_load` returns NULL for the container and
  -- `nk_state_exists` returns false.
  pub load-delete :
      (i : CString) (w : W)
      → (delete fs env i w).0 ≡ some tt
      → (load fs js env i (delete fs env i w).1 ≡ none)
        × (exists fs env i (delete fs env i w).1 ≡ false)
  unfolding load delete exists
  load-delete i w h =
      let p = get_container_state_path env i in
      let d = get_container_dir env i in
      let w1 = (fs.unlink p w).1 in
      let gone : fs.stat p (fs.rmdir d w1).1 ≡ none =
        F.stat-rmdir d p w1 (ground (arith, F.stat-unlink p w)) in
      (ap (parse_state js p) (F.read_of_missing p (fs.rmdir d w1).1 gone), ap is_regular gone)

  write_state_exists :
      (p : CString) (root : J) (w : W)
      → (write_state fs js p root w).0 ≡ some tt
      → fs.stat p (write_state fs js p root w).1 ≡ some regular
  unfolding write_state dump_to
  write_state_exists p root w h = elim (Option-cases (js.dumps root)) [
    | inl e ↦ absurd (ground (arith, e))
    | inr (t, e) ↦ ground (arith, e, F.stat-write p t w)
  ]

  -- Where `nk_state_save` returns 0 for a container with an id, `nk_state_exists` returns true for
  -- it.
  pub exists-save :
      (c : Container) (i : CString) (w : W)
      → (save fs js env c w).0 ≡ some tt
      → c.id ≡ some i
      → exists fs env i (save fs js env c w).1 ≡ true
  unfolding exists
  exists-save c i w h named =
      let whole = save_of_named fs js env c i w named in
      let (_, last) =
        then_eq_some (ensure_container_dir fs env i)
          (write_state fs js (get_container_state_path env i) (state_to_json js i c)) w
          (rw whole at h) in
      rw (whole, last) (ap is_regular (write_state_exists _ _ _ (rw (whole, last) at h)))
