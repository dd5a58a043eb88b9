-- ===== src/State/Loaded.antt =====
-- What holds of every container that `nk_state_load` returns, and the effect of storing it again with
-- another state and process.
use vibe_kata.Base.{
  ◌≡◌, refl, ◌≢◌, ◌∙◌, subst, Bool, true, Option, none, some, Option-cases, inl, inr, [], ◌∷◌,
  arith, is_some,
}
use vibe_kata.Base.Int.{ℤ, negsuc, IsInt32, to_int32-IsInt32}
use vibe_kata.Base.Bytes.{CString}
use vibe_kata.Files
use vibe_kata.Files.{Files}
use vibe_kata.Jansson
use vibe_kata.Jansson.{Jansson}
use vibe_kata.Types.{ContainerState, invalid, Container}
use vibe_kata.State.Names.{string_to_state}
use vibe_kata.State.Dir.{Env}
use vibe_kata.State.RoundTrip.{load-save}
use vibe_kata.State.Saved.{Saved}
use vibe_kata.State.Store.{
  state_of, pid_of, get_container_state_path, string_member, json_to_container, text_or_empty,
  loaded_bundle, parse_state, save, load,
}

string_to_state-ne-invalid : (s : CString) → string_to_state s ≢ invalid
unfolding string_to_state
string_to_state-ne-invalid s = ground arith

state_of-ne-invalid : (o : Option CString) → state_of o ≢ invalid
state_of-ne-invalid none h = cc
state_of-ne-invalid (some s) h = string_to_state-ne-invalid s h

pid_of-IsInt32 : (o : Option ℤ) → IsInt32 (pid_of o)
pid_of-IsInt32 none = omega arith
pid_of-IsInt32 (some z) = to_int32-IsInt32 z

loaded_bundle-ne-empty : (o : Option CString) → loaded_bundle o ≢ some []
loaded_bundle-ne-empty none h = cc
loaded_bundle-ne-empty (some []) h = cc
loaded_bundle-ne-empty (some (b ∷ s)) h = cc

module _ {J T : Type 0} (js : Jansson J T) where
  -- The state is one of the four, the id of the process fits, an empty bundle path is NULL, the texts
  -- can be stored, and the two fields that are not stored have their fixed values.
  pub record IsLoaded (path : CString) (c : Container) : Type 0 where
    pub valid : c.state ≢ invalid
    pub fits : IsInt32 c.init_pid
    pub full : c.bundle_path ≢ some []
    pub bundle_encodes : is_some (js.string (text_or_empty c.bundle_path)) ≡ true
    pub at_path : c.state_file ≡ some path
    pub no_fd : c.control_fd ≡ negsuc 0

module _ {J T : Type 0} {js : Jansson J T} (L : Jansson.IsLawful js) where
  string_member_encodes :
      (o : J) (k : CString) {s : CString}
      → string_member js o k ≡ some s
      → is_some (js.string s) ≡ true
  unfolding string_member
  string_member_encodes o k {s} h = elim (Option-cases (js.object_get o k)) [
    | inl missing ↦ absurd (ground (arith, missing))
    | inr (v, found) ↦ L.string_of_value v (ground (arith, found))
  ]

  bundle_encodes_of :
      (o : Option CString)
      → ((s : CString) → o ≡ some s → is_some (js.string s) ≡ true)
      → is_some (js.string (text_or_empty (loaded_bundle o))) ≡ true
  bundle_encodes_of none h = L.string_of_ascii [] tt
  bundle_encodes_of (some []) h = L.string_of_ascii [] tt
  bundle_encodes_of (some (b ∷ s)) h = h (b ∷ s) refl

  json_to_container-IsLoaded :
      (path : CString) (root : J) → IsLoaded js path (json_to_container js path root)
  unfolding json_to_container
  json_to_container-IsLoaded path root = record {
    valid = state_of-ne-invalid _;
    fits = pid_of-IsInt32 _;
    full = loaded_bundle-ne-empty _;
    bundle_encodes = bundle_encodes_of _ (λ s e. string_member_encodes root _ e);
    at_path = refl;
    no_fd = refl;
  }

  parse_state-IsLoaded :
      (path : CString) (o : Option T) {c : Container}
      → parse_state js path o ≡ some c
      → IsLoaded js path c
  unfolding parse_state
  parse_state-IsLoaded path none h = cc
  parse_state-IsLoaded path (some t) {c} h = elim (Option-cases (js.loads t)) [
    | inl e ↦ absurd (ground (arith, e))
    | inr (root, e) ↦
        let same : json_to_container js path root ≡ c = ground (arith, e) in
        subst (IsLoaded js path) same (json_to_container-IsLoaded path root)
  ]

module _ {W J T : Type 0} (fs : Files W T) {js : Jansson J T} (env : Env)
    (L : Jansson.IsLawful js) where
  -- Whatever the state file holds, a container that `nk_state_load` returns has one of the four
  -- states, a process id of 32 bits, a bundle path that is NULL or not empty and can be stored
  -- again, the path of its state file, and no control descriptor.
  pub load-IsLoaded :
      (i : CString) (w : W) {c : Container}
      → load fs js env i w ≡ some c
      → IsLoaded js (get_container_state_path env i) c
  unfolding load
  load-IsLoaded i w h =
      parse_state-IsLoaded L (get_container_state_path env i)
        (fs.read (get_container_state_path env i) w) h

module _ {W J T : Type 0} {fs : Files W T} {js : Jansson J T} (env : Env)
    {same : CString → CString → Bool} (F : Files.IsLawful fs same) (L : Jansson.IsLawful js) where
  -- A container that `nk_state_load` has returned, stored again by `nk_state_save` with another
  -- state and process, is loaded as just that. This is for a state that is not the error value, a
  -- process id of 32 bits, and a container with that id, which is valid UTF-8.
  pub load-save_updated :
      (c : Container) (i : CString) (s : ContainerState) (p : ℤ) (w : W)
      → IsLoaded js (get_container_state_path env i) c
      → c.id ≡ some i
      → is_some (js.string i) ≡ true
      → s ≢ invalid
      → IsInt32 p
      → Saved fs js env (record c { state = s; init_pid = p }) w
      → load fs js env i (save fs js env (record c { state = s; init_pid = p }) w).1
        ≡ some (record c { state = s; init_pid = p })
  load-save_updated c i s p w ok named encodes valid fits h =
      load-save env F L (record c { state = s; init_pid = p }) i w h named ok.full valid fits
        encodes ok.bundle_encodes
      ∙ ground (arith, ok.at_path, ok.no_fd)
