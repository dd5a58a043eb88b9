-- ===== src/State/Store.antt =====
-- `nk_state_save`, `nk_state_load`, `nk_state_delete` and `nk_state_exists` (src/common/state.c).
use vibe_kata.Base.{Bool, true, false, Option, none, some, [], ◌∷◌, ◌++◌, if◌then◌else◌}
use vibe_kata.Base.Int.{ℤ, pos, negsuc, to_int32}
use vibe_kata.Base.Bytes.{CString, bytes}
use vibe_kata.Effects.{M, lift, ◌>>=◌, ◌>>◌}
use vibe_kata.Files.{Kind, directory, regular, Files}
use vibe_kata.Jansson.{Jansson}
use vibe_kata.Types.{ContainerState, ExecutionMode, created, container, Container}
use vibe_kata.State.Names.{state_to_string, string_to_state, mode_to_string, string_to_mode}
use vibe_kata.State.Dir.{Env, get_state_dir, mkdir_p}

module _ (env : Env) where
  unfoldable pub get_container_dir : CString → CString
  get_container_dir container_id = get_state_dir env ++ (bytes "/" ++ container_id)

  unfoldable pub get_container_state_path : CString → CString
  get_container_state_path container_id =
      get_state_dir env ++ (bytes "/" ++ (container_id ++ bytes "/state.json"))

abbrev pub text_or_empty : Option CString → CString
text_or_empty none = []
text_or_empty (some s) = s

-- The fields by the members; `calloc` has zeroed those without one.
abbrev pub state_of : Option CString → ContainerState
state_of none = created
state_of (some s) = string_to_state s

abbrev pub mode_of : Option CString → ExecutionMode
mode_of none = container
mode_of (some s) = string_to_mode s

abbrev pub pid_of : Option ℤ → ℤ
pid_of none = pos 0
pid_of (some z) = to_int32 z

abbrev pub loaded_bundle : Option CString → Option CString
loaded_bundle none = none
loaded_bundle (some []) = none
loaded_bundle (some (b ∷ s)) = some (b ∷ s)

module _ {J T : Type 0} (js : Jansson J T) where
  -- The JSON object that `nk_state_save` builds.
  unfoldable pub state_to_json : CString → Container → J
  state_to_json id c =
      js.object_set_new
        (js.object_set_new
          (js.object_set_new
            (js.object_set_new (js.object_set_new js.object (bytes "id") (js.string id))
              (bytes "bundle_path") (js.string (text_or_empty c.bundle_path)))
            (bytes "state") (js.string (state_to_string c.state)))
          (bytes "mode") (js.string (mode_to_string c.mode)))
        (bytes "pid") (some (js.integer c.init_pid))

  -- A member that is there and is a string.
  unfoldable pub string_member : J → CString → Option CString
  string_member o k = elim (js.object_get o k) [ none ↦ none | some v ↦ js.string_value v ]

  unfoldable pub integer_member : J → CString → Option ℤ
  integer_member o k = elim (js.object_get o k) [ none ↦ none | some v ↦ js.integer_value v ]

  -- The container that `nk_state_load` fills in, over one that `calloc` zeroed.
  unfoldable pub json_to_container : CString → J → Container
  json_to_container state_path root = record {
    id = string_member root (bytes "id");
    bundle_path = loaded_bundle (string_member root (bytes "bundle_path"));
    state = state_of (string_member root (bytes "state"));
    mode = mode_of (string_member root (bytes "mode"));
    init_pid = pid_of (integer_member root (bytes "pid"));
    state_file = some state_path;
    control_fd = negsuc 0;
  }

module _ {J T : Type 0} (js : Jansson J T) where
  -- The container in the contents of a state file, if it opens and parses.
  unfoldable pub parse_state : CString → Option T → Option Container
  parse_state path none = none
  parse_state path (some t) = elim (js.loads t) [
    | none ↦ none
    | some root ↦ some (json_to_container js path root)
  ]

module _ {W J T : Type 0} (fs : Files W T) (js : Jansson J T) where
  -- `json_dumpf(root, f, JSON_INDENT(2))`
  unfoldable pub dump_to : CString → J → M W (Unit {0})
  dump_to path root w = elim (js.dumps root) [
    | none ↦ (none, w)
    | some t ↦ let (done, w') = fs.write path t w in (if done then some tt else none, w')
  ]

  -- The result is that of `json_dumpf`; that of `fclose` is not looked at.
  unfoldable pub write_state : CString → J → M W (Unit {0})
  write_state path root w =
      let (opened, w1) = fs.open_write path w in
      if opened
      then (let (done, w2) = dump_to path root w1 in (done, (fs.close path w2).1))
      else (none, w1)

abbrev pub is_regular : Option Kind → Bool
is_regular (some regular) = true
is_regular _ = false

module _ {W T : Type 0} (fs : Files W T) (env : Env) where
  -- The directory of the container is there, or is made.
  unfoldable pub make_container_dir : CString → M W (Unit {0})
  make_container_dir dir w = elim (fs.stat dir w) [
    | some directory ↦ (some tt, w)
    | some _ ↦ (none, w)
    | none ↦
        let (e, w') = fs.mkdir dir 0o755 w in elim e [ none ↦ (some tt, w') | some _ ↦ (none, w') ]
  ]

  unfoldable pub ensure_container_dir : CString → M W (Unit {0})
  ensure_container_dir container_id = do
    mkdir_p fs (get_state_dir env) 0o755
    make_container_dir (get_container_dir env container_id)

  -- The directory is removed if it can be, and the result is that of `unlink`.
  unfoldable pub delete : CString → M W (Unit {0})
  delete container_id w =
      let (e, w1) = fs.unlink (get_container_state_path env container_id) w in
      let (_, w2) = fs.rmdir (get_container_dir env container_id) w1 in
      (elim e [ none ↦ some tt | some _ ↦ none ], w2)

  unfoldable pub exists : CString → W → Bool
  exists container_id w = is_regular (fs.stat (get_container_state_path env container_id) w)

module _ {W J T : Type 0} (fs : Files W T) (js : Jansson J T) (env : Env) where
  unfoldable pub save : Container → M W (Unit {0})
  save c = do
    id ← lift c.id
    ensure_container_dir fs env id
    write_state fs js (get_container_state_path env id) (state_to_json js id c)

  unfoldable pub load : CString → W → Option Container
  unfolding parse_state
  load container_id w =
      let path = get_container_state_path env container_id in parse_state js path (fs.read path w)
