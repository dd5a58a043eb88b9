-- ===== src/Oci/Load.antt =====
-- `nk_oci_spec_load` and `nk_oci_spec_validate` (src/oci/spec.c).
use vibe_kata.Base.{
  Bool, true, false, Option, none, some, List, ◌++◌, length, if◌then◌else◌, ◌==◌, is_some,
}
use vibe_kata.Base.Bytes.{CString, bytes, snprintf}
use vibe_kata.Files.{Files, directory}
use vibe_kata.Jansson.{Jansson}
use vibe_kata.State.{path_max}
use vibe_kata.Oci.Types.{Process, Root, Spec}
use vibe_kata.Oci.Parse.{
  text_member, array_member, parse_process, parse_root, parse_linux, parse_mounts,
  parse_annotations,
}

unfoldable pub config_path : CString → CString
config_path bundle_path = snprintf path_max (bundle_path ++ (bytes "/" ++ bytes "config.json"))

module _ {J T : Type 0} (js : Jansson J T) where
  -- The members of the object that `json_object_foreach` goes over, if the member is an object.
  unfoldable pub object_member : J → CString → Option (List (CString × J))
  object_member o k = elim (js.object_get o k) [
    | none ↦ none
    | some v ↦ if js.is_object v then some (js.members v) else none
  ]

  abbrev bind_member {ℓ} : {A : Type ℓ} → J → CString → (J → Option A) → Option A
  bind_member o k f = elim (js.object_get o k) [ none ↦ none | some v ↦ f v ]

  unfoldable pub parse_spec : J → Spec
  unfolding text_member array_member object_member parse_process parse_root parse_linux parse_mounts
      parse_annotations
  parse_spec root =
      let mounts = array_member js root (bytes "mounts") in
      let annotations = object_member root (bytes "annotations") in
      record {
        oci_version = text_member js root (bytes "ociVersion");
        process = bind_member root (bytes "process") (parse_process js);
        root = bind_member root (bytes "root") (parse_root js);
        hostname = text_member js root (bytes "hostname");
        mounts = elim mounts [ none ↦ none | some ms ↦ some (parse_mounts js ms).0 ];
        mounts_len = elim mounts [ none ↦ 0 | some ms ↦ (parse_mounts js ms).1 ];
        linux_config = bind_member root (bytes "linux") (λ v. some (parse_linux js v));
        annotations = elim annotations [ none ↦ none | some ms ↦ some (parse_annotations js ms) ];
        annotations_len = elim annotations [
          | none ↦ 0
          | some ms ↦ length (parse_annotations js ms)
        ];
      }

module _ {W J T : Type 0} (fs : Files W T) (js : Jansson J T) where
  -- `stat(NULL, &st)` fails.
  unfoldable pub spec_load : Option CString → W → Option Spec
  unfolding parse_spec
  spec_load none w = none
  spec_load (some bundle_path) w = elim (fs.stat bundle_path w) [
    | some directory ↦ elim (fs.read (config_path bundle_path) w) [
      | none ↦ none
      | some content ↦ elim (js.loads content) [
        | none ↦ none
        | some root ↦ some (parse_spec js root)
      ]
    ]
    | _ ↦ none
  ]

abbrev pub has_path : Option Root → Bool
has_path none = false
has_path (some r) = is_some r.path

abbrev pub has_args : Option Process → Bool
has_args none = false
has_args (some p) = if is_some p.args then (if p.args_len == 0 then false else true) else false

unfoldable pub spec_validate : Spec → Bool
spec_validate spec = if has_path spec.root then has_args spec.process else false
