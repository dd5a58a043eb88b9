-- ===== src/Tests/Spec.antt =====
-- Examples of the specifications and of the namespaces.
use vibe_kata.Base.{◌≡◌, ◌↔◌, refl, arith, true, none, some, List, [], ◌∷◌, get_elem?, take}
use vibe_kata.Base.Bytes.{bytes, str_eq}
use vibe_kata.Base.Bits.{has_flag}
use vibe_kata.Jansson.Value.{Value, text, arr, obj, nil, cons, field, end, json_values}
use vibe_kata.Oci.{
  mount_free, parse_mounts, parse_mount, parse_linux, parse_namespace, spec_free, process_free,
  root_free, linux_free, parse_process, parse_root, parse_annotations, array_member, flag_member,
  user_id, id_member, parse_namespaces, parse_spec, spec_validate, get_annotation, object_member,
  text_member,
}
use vibe_kata.Oci.Arrays.{parse_namespaces_hole}
use vibe_kata.Oci.Valid.{HasRoot, HasArgs, spec_validate-parse_spec}
use vibe_kata.Oci.Freed.{spec_texts, spec_free-parse_spec}
use vibe_kata.Oci.Lookup.{lookup_text, get_annotation-parse_spec}
use vibe_kata.Container.Namespaces.{pid, mount, NamespaceConfig, ns_map, get_clone_flags}
use vibe_kata.Container.Namespaces.Flags.{asks_for, has_flag-get_clone_flags}
use vibe_kata.Tests.World.{config}

abbrev typed : Value
typed = obj (field (bytes "type") (text (bytes "pid")) end)

abbrev untyped : Value
untyped = obj end

typed_member : text_member json_values typed (bytes "type") ≡ some (bytes "pid")
unfolding text_member json_values str_eq
typed_member = refl

untyped_member : text_member json_values untyped (bytes "type") ≡ none
unfolding text_member json_values str_eq
untyped_member = refl

parse_namespaces_hole_example :
    let (entries, len) = parse_namespaces json_values (typed ∷ untyped ∷ typed ∷ []) in
    get_elem? (take len entries) 1 ≡ some (record { type = none; path = none })
parse_namespaces_hole_example =
    parse_namespaces_hole json_values (typed ∷ []) untyped [] typed [] (rw typed_member refl, tt)
      (rw untyped_member refl) (rw typed_member refl)

spec_validate-parse_spec_example :
    (spec_validate (parse_spec json_values config) ≡ true)
    ↔ (HasRoot json_values config × HasArgs json_values config)
spec_validate-parse_spec_example = spec_validate-parse_spec json_values config

annotations_of :
    object_member json_values config (bytes "annotations")
    ≡ some ((bytes "k", text (bytes "v")) ∷ [])
unfolding object_member json_values str_eq
annotations_of = refl

get_annotation-parse_spec_example :
    get_annotation (parse_spec json_values config) (bytes "k")
    ≡ lookup_text json_values (bytes "k") ((bytes "k", text (bytes "v")) ∷ [])
get_annotation-parse_spec_example =
    get_annotation-parse_spec json_values config (bytes "k") ((bytes "k", text (bytes "v")) ∷ [])
      annotations_of (omega arith, tt) ((omega arith, tt), tt)

abbrev configs : List NamespaceConfig
configs =
    record { type = pid; path = none; enable = true }
    ∷ record { type = mount; path = some (bytes "/n"); enable = true }
    ∷ []

has_flag-get_clone_flags_example :
    has_flag (get_clone_flags configs) (ns_map mount) ≡ asks_for mount configs
has_flag-get_clone_flags_example = has_flag-get_clone_flags mount configs

-- A specification with a mount and a namespace, each with all its strings.
abbrev mounted : Value
mounted = obj (
    field (bytes "root") (obj (field (bytes "path") (text (bytes "fs")) end)) (
      field (bytes "mounts")
        (arr (
          cons
            (obj (
              field (bytes "destination") (text (bytes "/d")) (
                field (bytes "source") (text (bytes "s"))
                  (field (bytes "options") (arr (cons (text (bytes "ro")) nil)) end))))
            nil))
        (field (bytes "linux")
          (obj (
            field (bytes "namespaces")
              (arr (
                cons
                  (obj (
                    field (bytes "type") (text (bytes "pid"))
                      (field (bytes "path") (text (bytes "/n")) end)))
                  nil))
              end))
          end)))

spec_free-parse_spec_example :
    spec_free (parse_spec json_values mounted) ≡ spec_texts (parse_spec json_values mounted)
unfolding parse_spec parse_mounts parse_mount parse_linux parse_namespaces parse_namespace
    text_member array_member object_member json_values str_eq
spec_free-parse_spec_example = spec_free-parse_spec json_values mounted refl refl

-- The strings that are freed of it.
freed_of_mounted :
    spec_free (parse_spec json_values mounted)
    ≡ bytes "fs" ∷ bytes "/d" ∷ bytes "s" ∷ bytes "ro" ∷ bytes "pid" ∷ bytes "/n" ∷ []
unfolding spec_free process_free root_free mount_free linux_free parse_spec parse_process parse_root
    parse_mounts parse_mount parse_linux parse_namespaces parse_namespace parse_annotations
    text_member array_member object_member flag_member user_id id_member json_values str_eq
freed_of_mounted = refl

-- The strings that are freed of the specification.
freed_strings :
    spec_free (parse_spec json_values config)
    ≡ bytes "sh" ∷ bytes "/" ∷ bytes "fs" ∷ bytes "k=v" ∷ []
unfolding spec_free process_free root_free linux_free parse_spec parse_process parse_root
    parse_annotations text_member array_member object_member flag_member user_id id_member
    json_values str_eq
freed_strings = refl
