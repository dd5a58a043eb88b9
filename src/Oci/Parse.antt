-- ===== src/Oci/Parse.antt =====
-- The parsers of the parts of `config.json` (src/oci/spec.c): `parse_process`, `parse_root`,
-- `parse_linux`, and the loops of `nk_oci_spec_load` over the mounts and the annotations.
use vibe_kata.Base.{
  ℕ, suc, Bool, false, Option, none, some, List, [], ◌∷◌, ◌++◌, map, length, if◌then◌else◌,
}
use vibe_kata.Base.Int.{to_uint32}
use vibe_kata.Base.Bytes.{CString, bytes}
use vibe_kata.Jansson.{Jansson}
use vibe_kata.Oci.Types.{Process, Root, Mount, Namespace, Linux}

abbrev length_of {ℓ} : {A : Type ℓ} → Option (List A) → ℕ
length_of none = 0
length_of (some xs) = length xs

module _ {J T : Type 0} (js : Jansson J T) where
  -- A member that is there and is a string, an array, or true.
  unfoldable pub text_member : J → CString → Option CString
  text_member o k = elim (js.object_get o k) [ none ↦ none | some v ↦ js.string_value v ]

  unfoldable pub array_member : J → CString → Option (List J)
  array_member o k = elim (js.object_get o k) [ none ↦ none | some v ↦ js.array v ]

  unfoldable pub flag_member : J → CString → Bool
  flag_member o k = elim (js.object_get o k) [ none ↦ false | some v ↦ js.is_true v ]

  -- `json_integer_value` of a member that is there: 0 where it is no integer.
  unfoldable pub id_member : J → CString → ℕ
  id_member o k = elim (js.object_get o k) [
    | none ↦ 0
    | some v ↦ elim (js.integer_value v) [ none ↦ 0 | some z ↦ to_uint32 z ]
  ]

  unfoldable pub user_id : J → CString → ℕ
  unfolding id_member
  user_id proc_obj k = elim (js.object_get proc_obj (bytes "user")) [
    | none ↦ 0
    | some user ↦ if js.is_object user then id_member user k else 0
  ]

  -- The elements of an array of strings, with NULL for what is no string.
  abbrev texts : Option (List J) → Option (List (Option CString))
  texts none = none
  texts (some xs) = some (map js.string_value xs)

  unfoldable pub parse_process : J → Option Process
  unfolding text_member array_member flag_member user_id
  parse_process proc_obj = elim (array_member proc_obj (bytes "args")) [
    | none ↦ none
    | some args ↦
        let env = array_member proc_obj (bytes "env") in
        some (record {
          args = some (map js.string_value args);
          args_len = length args;
          env = texts env;
          env_len = length_of env;
          cwd = elim (text_member proc_obj (bytes "cwd")) [
            | none ↦ some (bytes "/")
            | some s ↦ some s
          ];
          uid = user_id proc_obj (bytes "uid");
          gid = user_id proc_obj (bytes "gid");
          no_new_privileges = flag_member proc_obj (bytes "noNewPrivileges");
          console_size = text_member proc_obj (bytes "consoleSize");
          terminal = flag_member proc_obj (bytes "terminal");
        })
  ]

  unfoldable pub parse_root : J → Option Root
  unfolding text_member flag_member
  parse_root root_obj = elim (text_member root_obj (bytes "path")) [
    | none ↦ none
    | some path ↦
        some (record { path = some path; readonly = flag_member root_obj (bytes "readonly") })
  ]

  -- One round of the loop over the namespaces: the element, and what it adds to `namespaces_len`.
  unfoldable pub parse_namespace : J → Namespace
  unfolding text_member
  parse_namespace ns = elim (text_member ns (bytes "type")) [
    | none ↦ record { type = none; path = none }
    | some type ↦ record { type = some type; path = text_member ns (bytes "path") }
  ]

  unfoldable pub parse_namespaces : List J → List Namespace × ℕ
  unfolding parse_namespace
  parse_namespaces [] = ([], 0)
  parse_namespaces (ns ∷ rest) =
      let (entries, len) = parse_namespaces rest in
      let entry = parse_namespace ns in
      (entry ∷ entries, elim entry.type [ none ↦ len | some _ ↦ suc len ])

  unfoldable pub parse_linux : J → Linux
  unfolding parse_namespaces text_member array_member
  parse_linux linux_obj =
      let propagation = text_member linux_obj (bytes "rootfsPropagation") in
      elim (array_member linux_obj (bytes "namespaces")) [
        | none ↦ record { namespaces = none; namespaces_len = 0; rootfs_propagation = propagation }
        | some xs ↦
            let (entries, len) = parse_namespaces xs in
            record {
              namespaces = some entries;
              namespaces_len = len;
              rootfs_propagation = propagation;
            }
      ]

  -- One round of the loop over the mounts.
  unfoldable pub parse_mount : J → Mount
  unfolding text_member array_member
  parse_mount m = elim (text_member m (bytes "destination")) [
    | none ↦ record {
      destination = none;
      type = none;
      source = none;
      options = none;
      options_len = 0;
    }
    | some dest ↦
        let opts = array_member m (bytes "options") in
        record {
          destination = some dest;
          type = text_member m (bytes "type");
          source = text_member m (bytes "source");
          options = texts opts;
          options_len = length_of opts;
        }
  ]

  unfoldable pub parse_mounts : List J → List Mount × ℕ
  unfolding parse_mount
  parse_mounts [] = ([], 0)
  parse_mounts (m ∷ rest) =
      let (entries, len) = parse_mounts rest in
      let entry = parse_mount m in
      (entry ∷ entries, elim entry.destination [ none ↦ len | some _ ↦ suc len ])

  -- The loop over the annotations: `key=value` for each member that is a string.
  unfoldable pub parse_annotations : List (CString × J) → List CString
  parse_annotations [] = []
  parse_annotations ((key, value) ∷ rest) =
      let anns = parse_annotations rest in
      elim (js.string_value value) [ none ↦ anns | some v ↦ (key ++ (b'=' ∷ v)) ∷ anns ]
