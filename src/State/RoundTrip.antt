-- ===== src/State/RoundTrip.antt =====
-- What `nk_state_load` reads of what `nk_state_save` wrote.
use vibe_kata.Base.{
  Option-cases, inl, inr, ◌≡◌, refl, ◌≢◌, ap, Bool, true, Option, some, [], arith, is_some,
  if◌then◌else◌,
}
use vibe_kata.Base.Int.{ℤ, negsuc, IsInt32, to_int32-eq_self}
use vibe_kata.Base.Bytes.{CString, bytes, str_eq}
use vibe_kata.Effects.{lift, ◌>>=◌, ◌>>◌}
use vibe_kata.Files
use vibe_kata.Files.{Files}
use vibe_kata.Jansson
use vibe_kata.Jansson.{Jansson}
use vibe_kata.Types.{
  ContainerState, invalid, created, running, stopped, paused, ExecutionMode, container, vm,
  Container,
}
use vibe_kata.State.Names.{state_to_string, string_to_state, mode_to_string, string_to_mode}
use vibe_kata.State.Dir.{Env}
use vibe_kata.State.Saved.{write_flushes, Saved, save_flushes_of_named}
use vibe_kata.State.Store.{
  get_container_state_path, state_to_json, string_member, integer_member, json_to_container,
  text_or_empty, ensure_container_dir, dump_to, write_state, save, load,
}

-- The spelling of a state that is not the error value is read back as that state.
pub string_to_state-state_to_string :
    (s : ContainerState) → s ≢ invalid → string_to_state (state_to_string s) ≡ s
unfolding string_to_state state_to_string str_eq
string_to_state-state_to_string invalid h = absurd (h refl)
string_to_state-state_to_string created h = refl
string_to_state-state_to_string running h = refl
string_to_state-state_to_string stopped h = refl
string_to_state-state_to_string paused h = refl

pub string_to_mode-mode_to_string : (m : ExecutionMode) → string_to_mode (mode_to_string m) ≡ m
unfolding string_to_mode mode_to_string str_eq
string_to_mode-mode_to_string container = refl
string_to_mode-mode_to_string vm = refl

module _ {J T : Type 0} {js : Jansson J T} (L : Jansson.IsLawful js) where
  state_encodes : (s : ContainerState) → is_some (js.string (state_to_string s)) ≡ true
  unfolding state_to_string
  state_encodes invalid = L.string_of_ascii _ (omega arith)
  state_encodes created = L.string_of_ascii _ (omega arith)
  state_encodes running = L.string_of_ascii _ (omega arith)
  state_encodes stopped = L.string_of_ascii _ (omega arith)
  state_encodes paused = L.string_of_ascii _ (omega arith)

  mode_encodes : (m : ExecutionMode) → is_some (js.string (mode_to_string m)) ≡ true
  unfolding mode_to_string
  mode_encodes container = L.string_of_ascii _ (omega arith)
  mode_encodes vm = L.string_of_ascii _ (omega arith)

  -- A member that was set from a text that jansson takes, behind `is_object`.
  get-set_text :
      (o : J) (k s j : CString)
      → js.is_object o ≡ true
      → is_some (js.string s) ≡ true
      → js.object_get (js.object_set_new o k (js.string s)) j
        ≡ (if str_eq k j then js.string s else js.object_get o j)
  get-set_text o k s j h e = elim (Option-cases (js.string s)) [
    | inl missing ↦ cc (missing, e)
    | inr (v, found) ↦ rw found (L.get-set o k j v h)
  ]

  integer_member_of :
      (o : J) (k : CString) (z : ℤ)
      → js.object_get o k ≡ some (js.integer z)
      → integer_member js o k ≡ some z
  unfolding integer_member
  integer_member_of o k z found = ground (arith, found, L.integer_value-integer z)

  string_member_of :
      (o : J) (k s : CString)
      → js.object_get o k ≡ js.string s
      → is_some (js.string s) ≡ true
      → string_member js o k ≡ some s
  unfolding string_member
  string_member_of o k s found e = elim (Option-cases (js.string s)) [
    | inl missing ↦ cc (missing, e)
    | inr (v, q) ↦ ground (arith, q, found, L.string_value-string s q)
  ]

  module _ (i : CString) (c : Container) (id_encodes : is_some (js.string i) ≡ true)
      (bundle_encodes : is_some (js.string (text_or_empty c.bundle_path)) ≡ true) where
    -- The members of the object that is written, from the last to the first.
    member :
        (k : CString)
        → js.object_get (state_to_json js i c) k ≡ (
            if str_eq (bytes "pid") k
            then some (js.integer c.init_pid)
            else if str_eq (bytes "mode") k
            then js.string (mode_to_string c.mode)
            else if str_eq (bytes "state") k
            then js.string (state_to_string c.state)
            else if str_eq (bytes "bundle_path") k
            then js.string (text_or_empty c.bundle_path)
            else if str_eq (bytes "id") k
            then js.string i
            else js.object_get js.object k)
    unfolding state_to_json
    member k =
        let o1 = js.object_set_new js.object (bytes "id") (js.string i) in
        let h1 : js.is_object o1 ≡ true = L.is_object-set _ _ _ L.is_object-object in
        let o2 =
          js.object_set_new o1 (bytes "bundle_path") (js.string (text_or_empty c.bundle_path)) in
        let h2 : js.is_object o2 ≡ true = L.is_object-set _ _ _ h1 in
        let o3 = js.object_set_new o2 (bytes "state") (js.string (state_to_string c.state)) in
        let h3 : js.is_object o3 ≡ true = L.is_object-set _ _ _ h2 in
        let o4 = js.object_set_new o3 (bytes "mode") (js.string (mode_to_string c.mode)) in
        let h4 : js.is_object o4 ≡ true = L.is_object-set _ _ _ h3 in
        rw (
          L.get-set o4 _ k _ h4,
          get-set_text o3 _ _ k h3 (mode_encodes c.mode),
          get-set_text o2 _ _ k h2 (state_encodes c.state),
          get-set_text o1 _ _ k h1 bundle_encodes,
          get-set_text js.object _ _ k L.is_object-object id_encodes,
        )

    -- What is read of the object that is written: the container itself, but for the state file's path
    -- and the control descriptor, which are not stored.
    json_to_container-state_to_json :
        (path : CString)
        → c.id ≡ some i
        → c.bundle_path ≢ some []
        → c.state ≢ invalid
        → IsInt32 c.init_pid
        → json_to_container js path (state_to_json js i c)
          ≡ record c { state_file = some path; control_fd = negsuc 0 }
    unfolding json_to_container integer_member str_eq
    json_to_container-state_to_json path named full valid fits =
        rw
          (
            string_member_of _ (bytes "id") i (member (bytes "id")) id_encodes,
            string_member_of _ (bytes "bundle_path") _ (member (bytes "bundle_path"))
                bundle_encodes,
            string_member_of _ (bytes "state") _ (member (bytes "state")) (state_encodes c.state),
            string_member_of _ (bytes "mode") _ (member (bytes "mode")) (mode_encodes c.mode),
            integer_member_of _ (bytes "pid") c.init_pid (member (bytes "pid")),
            string_to_state-state_to_string c.state valid,
            string_to_mode-mode_to_string,
            to_int32-eq_self c.init_pid fits,
          )
          (ground arith)

module _ {W J T : Type 0} (fs : Files W T) (js : Jansson J T) (env : Env) where
  pub save_of_named :
      (c : Container) (i : CString) (w : W)
      → c.id ≡ some i
      → save fs js env c w
        ≡ (ensure_container_dir fs env i
              >> write_state fs js (get_container_state_path env i) (state_to_json js i c))
            w
  unfolding save
  save_of_named c i w named =
      ap
        (λ (o : Option CString).
          (lift o >>= λ id.
          ensure_container_dir fs env id
          >> write_state fs js (get_container_state_path env id) (state_to_json js id c))
            w)
        named

module _ {W J T : Type 0} {fs : Files W T} {js : Jansson J T} (env : Env)
    {same : CString → CString → Bool} (F : Files.IsLawful fs same) (L : Jansson.IsLawful js) where
  read-write_state :
      (p : CString) (root : J) (w : W)
      → (write_state fs js p root w).0 ≡ some tt
      → write_flushes fs js p root w ≡ true
      → (t : T) × (js.dumps root ≡ some t) × (fs.read p (write_state fs js p root w).1 ≡ some t)
  unfolding write_state dump_to
  read-write_state p root w h flushed = elim (Option-cases (js.dumps root)) [
    | inl missing ↦ absurd (ground (arith, missing))
    | inr (t, q) ↦ (t, q, ground (arith, q, flushed, F.read-write p t w))
  ]

  read-save :
      (c : Container) (i : CString) (w : W)
      → Saved fs js env c w
      → c.id ≡ some i
      → (t : T) × (js.dumps (state_to_json js i c) ≡ some t)
        × (fs.read (get_container_state_path env i) (save fs js env c w).1 ≡ some t)
  read-save c i w (h, flushed) named =
      let p = get_container_state_path env i in
      let root = state_to_json js i c in
      let w1 = (ensure_container_dir fs env i w).1 in
      elim (Option-cases (ensure_container_dir fs env i w).0) [
        | inl failed ↦ absurd (ground (arith, save_of_named fs js env c i w named, failed))
        | inr (_, made) ↦
            let same_write : save fs js env c w ≡ write_state fs js p root w1 =
              ground (arith, save_of_named fs js env c i w named, made) in
            rw same_write (
              read-write_state p root w1 (rw same_write at h)
                (rw (save_flushes_of_named fs js env c i w named) at flushed))
      ]

  -- Where `nk_state_save` returns 0 for a container and its `fclose` has written what was buffered,
  -- `nk_state_load` returns for its id the container that was stored, with the path of its state
  -- file and no control descriptor. This is for a container with an id, an id and a bundle path
  -- that are valid UTF-8, a bundle path that is not empty, a state that is not the error value, and
  -- a process id of 32 bits.
  pub load-save :
      (c : Container) (i : CString) (w : W)
      → Saved fs js env c w
      → c.id ≡ some i
      → c.bundle_path ≢ some []
      → c.state ≢ invalid
      → IsInt32 c.init_pid
      → is_some (js.string i) ≡ true
      → is_some (js.string (text_or_empty c.bundle_path)) ≡ true
      → load fs js env i (save fs js env c w).1
        ≡ some
            (record c { state_file = some (get_container_state_path env i); control_fd = negsuc 0 })
  unfolding load
  load-save c i w h named full valid fits e1 e2 =
      let p = get_container_state_path env i in
      let (t, dumped, stored) = read-save c i w h named in
      ground (
        arith,
        stored,
        L.loads-dumps (state_to_json js i c) dumped,
        json_to_container-state_to_json L i c e1 e2 p named full valid fits,
      )
