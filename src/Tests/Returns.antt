-- ===== src/Tests/Returns.antt =====
-- Examples of starts of a container whose specification has namespaces.
use vibe_kata.Base.{
  ap, ◌∙◌, true, ◌≡◌, ◌↔◌, refl, subst, false, none, some, [], ◌∷◌, List, inl, inr, arith,
}
use mathlib.Core.Option.{some-injective}
use vibe_kata.Base.Int.{pos, to_int32}
use vibe_kata.Base.Bytes.{CString, bytes, str_eq}
use vibe_kata.Files.Memory.{Disk, file, disk_files, update}
use vibe_kata.Jansson.Value.{Items, Value, text, arr, cons, nil, obj, field, end, json_values}
use vibe_kata.Types.{created}
use vibe_kata.State
use vibe_kata.State.{
  get_container_state_path, get_state_dir, parse_state, json_to_container, string_member,
  integer_member, string_to_state, string_to_mode,
}
use vibe_kata.Oci.{parse_spec, spec_load, config_path, array_member, text_member}
use vibe_kata.Lifecycle.{Prepared, prepare, prepare_container, prepare_spec, start, crashed}
use vibe_kata.Lifecycle.Typed.{TypedFirst, IsOrdered}
use vibe_kata.Lifecycle.Returns.{Reads, Reads-unique, start_crashes}
use vibe_kata.Lifecycle.Exits.{Returns}
use vibe_kata.Log.{initial}
use vibe_kata.Args.{
  Getopt, Parsed, accepted, parse_args, parse_command, parse_opts, parse_opt, check_options,
  is_valid_command, is_command, settle, default_options,
}
use vibe_kata.Program.{main}
use vibe_kata.Program.Whole.{main-Returns}
use vibe_kata.Tests.World.{env, held, kernel}
use vibe_kata.Tests.Fixtures.{created_disk}

abbrev typed : Value
typed = obj (field (bytes "type") (text (bytes "pid")) end)

abbrev untyped : Value
untyped = obj end

-- A `config.json` with the namespaces.
abbrev with_namespaces : Items → Value
with_namespaces nss = obj (
    field (bytes "root") (obj (field (bytes "path") (text (bytes "fs")) end)) (
      field (bytes "process") (obj (field (bytes "args") (arr (cons (text (bytes "sh")) nil)) end))
        (field (bytes "linux") (obj (field (bytes "namespaces") (arr nss) end)) end)))

abbrev disk_with : Items → Disk Value
disk_with nss =
    update (bytes "/b/config.json") (some (file (some (with_namespaces nss)))) created_disk

-- What the start reads.
reads :
    (nss : Items)
    → Reads disk_files json_values env (bytes "c") (disk_with nss) (with_namespaces nss)
unfolding State.load parse_state json_to_container string_member integer_member string_to_state
    string_to_mode get_container_state_path get_state_dir disk_files json_values str_eq to_int32
    config_path
reads nss = (held created (pos 0), bytes "/b", with_namespaces nss, refl, refl, refl, refl)

-- A namespace without a type comes last.
abbrev last_untyped : Items
last_untyped = cons typed (cons untyped nil)

linux_of :
    (nss : Items) (linux : Value) (xs : List Value)
    → json_values.object_get (with_namespaces nss) (bytes "linux") ≡ some linux
    → array_member json_values linux (bytes "namespaces") ≡ some xs
    → json_values.array (arr nss) ≡ some xs
unfolding json_values str_eq array_member
linux_of nss linux xs e q = ground (arith, e, q)

typed_first :
    (xs : List Value) → json_values.array (arr last_untyped) ≡ some xs → TypedFirst json_values xs
unfolding json_values text_member str_eq
typed_first xs e =
    subst (TypedFirst json_values) (some-injective (typed ∷ untyped ∷ []) xs e)
      (inl (refl, inr (refl, tt)))

ordered : IsOrdered json_values (with_namespaces last_untyped)
ordered linux xs e q = typed_first xs (linux_of last_untyped linux xs e q)

-- `start -a c`
abbrev getopt : Getopt
getopt = record {
  opts = λ args. record { opt = b'a'; optarg = [] } ∷ [];
  rest = λ args. some (bytes "c");
}

abbrev arguments : List CString
arguments = bytes "start" ∷ bytes "-a" ∷ bytes "c" ∷ []

abbrev parsed : Parsed
parsed = record {
  options = record (default_options (bytes "start")) {
    container_id = some (bytes "c");
    attach = true;
  };
  attach_set = true;
  detach_set = false;
  exec_set = false;
  log = initial;
}

parses : parse_args getopt initial arguments ≡ accepted parsed
unfolding parse_args parse_command parse_opts parse_opt check_options is_valid_command is_command
    settle default_options str_eq
parses = refl

parsed_of : (p : Parsed) → parse_args getopt initial arguments ≡ accepted p → parsed ≡ p
parsed_of p h = ground (arith, parses, h)

Reads-IsOrdered :
    (i : CString)
    → bytes "c" ≡ i
    → (config : Value) → Reads disk_files json_values env i (disk_with last_untyped) config
    → IsOrdered json_values config
Reads-IsOrdered i e config r =
    subst (IsOrdered json_values)
      (Reads-unique disk_files json_values env i (disk_with last_untyped)
        (subst
          (λ x.
            Reads disk_files json_values env x (disk_with last_untyped)
              (with_namespaces last_untyped))
          e (reads last_untyped))
        r)
      ordered

main-Returns_example :
    Returns
      (main disk_files json_values env
        (kernel none)
        getopt
        initial
        (bytes "nano")
        arguments
        (disk_with last_untyped)).ends
unfolding default_options
main-Returns_example =
    main-Returns disk_files json_values env (kernel none) getopt initial (bytes "nano") arguments
      (disk_with last_untyped)
      (λ p i h named.
        let same = parsed_of p h in
        (
          λ _. Reads-IsOrdered i (
              some-injective (bytes "c") i
                (ap (λ (q : Parsed). q.options.container_id) same ∙ named)),
          λ other. absurd (ground (arith, ap (λ (q : Parsed). q.options.command) same ∙ other)),
        ))

-- A namespace without a type comes first.
abbrev first_untyped : Items
first_untyped = cons untyped (cons typed nil)

not-IsOrdered : ¬ IsOrdered json_values (with_namespaces first_untyped)
unfolding json_values str_eq array_member text_member
not-IsOrdered h =
    elim (h (obj (field (bytes "namespaces") (arr first_untyped) end)) (untyped ∷ typed ∷ []) refl
      refl) [
        | inl (first, rest) ↦ absurd (ground (arith, first))
        | inr (first, (second, rest)) ↦ absurd (ground (arith, second))
      ]

abbrev hole : Disk Value
hole = disk_with first_untyped

abbrev prepared : Prepared
prepared = record {
  stored = held created (pos 0);
  bundle = bytes "/b";
  spec = parse_spec json_values (with_namespaces first_untyped);
  process = record {
    args = some (some (bytes "sh") ∷ []);
    args_len = 1;
    env = none;
    env_len = 0;
    cwd = some (bytes "/");
    uid = 0;
    gid = 0;
    no_new_privileges = false;
    console_size = none;
    terminal = false;
  };
  root = record { path = some (bytes "fs"); readonly = false };
}

prepares : prepare disk_files json_values env (bytes "c") hole ≡ some prepared
unfolding prepare prepare_container prepare_spec State.load parse_state json_to_container
    string_member integer_member string_to_state string_to_mode get_container_state_path
    get_state_dir disk_files json_values str_eq to_int32 spec_load config_path parse_spec
prepares = refl

start_crashes_example :
    (start disk_files json_values env (kernel none) (bytes "c") false hole ≡ crashed)
    ↔ ¬ IsOrdered json_values (with_namespaces first_untyped)
start_crashes_example =
    start_crashes disk_files json_values env (kernel none) (bytes "c") false hole {p = prepared}
      {config = with_namespaces first_untyped} prepares (reads first_untyped)
