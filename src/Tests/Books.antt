-- ===== src/Tests/Books.antt =====
-- Examples of the books that are kept beside a kernel.
use vibe_kata.Base.{
  true, ℕ, Bool, sym, ap, ◌∙◌, subst, List, ◌≡◌, refl, Option, arith, none, some, [], ◌∷◌, false,
}
use mathlib.Core.Option.{some-injective}
use vibe_kata.Base.Int.{pos, negsuc, to_int32, ℤ}
use vibe_kata.Base.Bytes.{CString, bytes, str_eq}
use vibe_kata.Files.{Files}
use vibe_kata.Files.Memory.{Disk, disk_files}
use vibe_kata.Jansson.Value.{Value, json_values}
use vibe_kata.Container.Kernel.{Kernel}
use vibe_kata.Container.Context.{Context}
use vibe_kata.State
use vibe_kata.State.{
  get_container_state_path, get_state_dir, mkdir_p, strip_slash, get_container_dir, mkdir_loop,
  mkdir_parents, mkdir_or_exists, ensure_container_dir, make_container_dir, write_state, dump_to,
  state_to_json, string_to_state, state_to_string, mode_to_string, string_to_mode,
  json_to_container, parse_state, string_member, integer_member,
}
use vibe_kata.Oci.{spec_load, spec_validate, parse_spec, config_path}
use vibe_kata.Container.Cgroups.{cgroup_delete, write_control}
use vibe_kata.Container.Mounts.{setup_rootfs}
use vibe_kata.Container.Process.{
  container_exec, container_wait, await_child, clone_child, is_runnable, exec_context,
  container_signal, ExecContext, container_child_fn, run_program, enter_cwd, set_hostname,
}
use vibe_kata.Lifecycle.{
  exit_code_of, stop_process, finish_run, ensure_state_dir, has_valid_spec, create_new,
  new_container, prepare_container, prepare_spec, context_namespaces, launch, attach_to, create,
  start, run, prepare, context_of, returned, crashed, Outcome, delete, main_command, renamed,
  finish_run_command,
}
use vibe_kata.Resources.{Books}
use vibe_kata.Resources.Main.{OwnsDeleted}
use vibe_kata.Types.{Container}
use vibe_kata.Lifecycle.{has_process}
use vibe_kata.Resources.Audit.{audited_files, audited, audited-KeepsBooks}
use vibe_kata.Resources.Child.{books-container_child_fn}
use vibe_kata.Log.{initial}
use vibe_kata.Args.{
  Getopt, Parsed, accepted, parse_args, parse_command, parse_opts, parse_opt, check_options,
  is_valid_command, is_command, settle, default_options,
}
use vibe_kata.Program.{main, run_options, run_command}
use vibe_kata.Program.Whole.{main-KeepsBooks}
use vibe_kata.Tests.World.{env, kernel, bundle_disk}

abbrev Audited : Type 0
Audited = Disk Value × Books

-- No process may be sent a signal.
abbrev nobody : ℤ → Bool
nobody pid = false

abbrev files : Files Audited Value
files = audited_files disk_files

abbrev calls : Kernel Audited
calls = audited nobody (kernel none)

-- Standard input, output and error are open.
abbrev books : Books
books = record { open_fds = 2 ∷ 1 ∷ 0 ∷ []; misused = []; strays = [] }

abbrev at_first : Audited
at_first = (bundle_disk, books)

-- `run -b /b --rm c` creates, starts and deletes the container.
abbrev pub getopt : Getopt
getopt = record {
  opts = λ args. record { opt = b'b'; optarg = bytes "/b" } ∷ record { opt = 1; optarg = [] } ∷ [];
  rest = λ args. some (bytes "c");
}

abbrev pub arguments : List CString
arguments = bytes "run" ∷ bytes "-b" ∷ bytes "/b" ∷ bytes "--rm" ∷ bytes "c" ∷ []

abbrev outcome : Outcome Audited ℤ
outcome = (main files json_values env calls getopt initial (bytes "nano") arguments at_first).ends

abbrev last_of : Outcome Audited ℤ → Audited
last_of crashed = (bundle_disk, record { open_fds = []; misused = []; strays = negsuc 0 ∷ [] })
last_of (returned r w) = w

abbrev ret_of : Outcome Audited ℤ → Option ℤ
ret_of crashed = none
ret_of (returned r w) = r

returned_of :
    (o : Outcome Audited ℤ) {ret : ℤ} → ret_of o ≡ some ret → o ≡ returned (some ret) (last_of o)
returned_of crashed h = absurd (ground arith)
returned_of (returned r w) h = ground (arith, h)

runs : ret_of outcome ≡ some (pos 7)
unfolding start prepare prepare_container prepare_spec context_of context_namespaces launch
    attach_to State.load State.save parse_state json_to_container string_member integer_member
    string_to_state string_to_mode get_container_state_path get_state_dir ensure_container_dir
    make_container_dir mkdir_p mkdir_parents mkdir_loop mkdir_or_exists strip_slash
    get_container_dir write_state dump_to state_to_json state_to_string mode_to_string disk_files
    json_values str_eq to_int32 spec_load parse_spec config_path container_exec clone_child
    await_child is_runnable exec_context container_child_fn setup_rootfs enter_cwd set_hostname
    run_program create create_new ensure_state_dir has_valid_spec new_container State.exists
    spec_validate delete stop_process cgroup_delete container_signal State.delete container_wait
    exit_code_of finish_run run main_command renamed finish_run_command write_control main
    run_options run_command parse_args parse_command parse_opts parse_opt check_options
    is_valid_command is_command settle default_options
runs = refl

abbrev pub parsed : Parsed
parsed = record {
  options = record (default_options (bytes "run")) {
    container_id = some (bytes "c");
    bundle_path = bytes "/b";
    attach = true;
    rm = true;
  };
  attach_set = false;
  detach_set = false;
  exec_set = false;
  log = initial;
}

pub parses : parse_args getopt initial arguments ≡ accepted parsed
unfolding parse_args parse_command parse_opts parse_opt check_options is_valid_command is_command
    settle default_options str_eq
parses = refl

abbrev loaded : Audited → Option Container
loaded v = State.load files json_values env (bytes "c") v

abbrev started : Outcome Audited ℕ
started =
    start files json_values env calls (bytes "c") true
      (create files json_values env parsed.options (bytes "c") at_first).1

-- Whether the container has a process when the start has returned.
abbrev live_after : Outcome Audited ℕ → Bool
live_after crashed = false
live_after (returned s v) = elim (loaded v) [ none ↦ false | some c ↦ has_process c ]

has_ended : live_after started ≡ false
unfolding start prepare prepare_container prepare_spec context_of context_namespaces launch
    attach_to State.load State.save parse_state json_to_container string_member integer_member
    string_to_state string_to_mode get_container_state_path get_state_dir ensure_container_dir
    make_container_dir mkdir_p mkdir_parents mkdir_loop mkdir_or_exists strip_slash
    get_container_dir write_state dump_to state_to_json state_to_string mode_to_string disk_files
    json_values str_eq to_int32 spec_load parse_spec config_path container_exec clone_child
    await_child is_runnable exec_context container_child_fn setup_rootfs enter_cwd set_hostname
    run_program create create_new ensure_state_dir has_valid_spec new_container State.exists
    spec_validate delete stop_process cgroup_delete container_signal State.delete container_wait
    exit_code_of finish_run run main_command renamed finish_run_command write_control main
    run_options run_command parse_args parse_command parse_opts parse_opt check_options
    is_valid_command is_command settle default_options
has_ended = refl

ended_of :
    (s : Option ℕ) (v : Audited) (c : Container)
    → started ≡ returned s v
    → loaded v ≡ some c
    → has_process c ≡ true
    → nobody c.init_pid ≡ true
ended_of s v c h l live =
    let after : live_after (returned s v) ≡ false = sym (ap live_after h) ∙ has_ended in
    absurd (ground (arith, after, l, live))

OwnsDeleted-parsed :
    OwnsDeleted nobody files json_values env calls parsed.options (bytes "c") at_first
unfolding default_options
OwnsDeleted-parsed =
    (λ other. absurd (ground (arith, other)), λ _ _ s v h c l live. ended_of s v c h l live)

main-KeepsBooks_example : (last_of outcome).1 ≡ books
unfolding default_options
main-KeepsBooks_example =
    main-KeepsBooks (audited-KeepsBooks nobody disk_files (kernel none)) json_values env getopt
      initial (bytes "nano") arguments at_first {r = some (pos 7)} {w' = last_of outcome}
      (λ p i h named.
        let same : parsed ≡ p = ground (arith, parses, h) in
        let id =
          some-injective (bytes "c") i (ap (λ (q : Parsed). q.options.container_id) same ∙ named) in
        subst (λ (q : Parsed). OwnsDeleted nobody files json_values env calls q.options i at_first)
          same
          (subst (λ x. OwnsDeleted nobody files json_values env calls parsed.options x at_first) id
            OwnsDeleted-parsed))
      (returned_of outcome runs)

abbrev shell : Context
shell = record {
  rootfs = some (bytes "/b/fs");
  namespaces = none;
  namespaces_len = 0;
  cgroup = none;
  env = none;
  env_len = 0;
  cwd = some (bytes "/");
  args = some (some (bytes "sh") ∷ []);
  args_len = 1;
  terminal = false;
}

abbrev child : ExecContext
child = exec_context shell 3 4

books-container_child_fn_example :
    (container_child_fn files calls child
      (bundle_disk, record { open_fds = 3 ∷ 4 ∷ 2 ∷ 1 ∷ 0 ∷ []; misused = []; strays = [] })).1.1
    ≡ books
unfolding exec_context
books-container_child_fn_example =
    books-container_child_fn (audited-KeepsBooks nobody disk_files (kernel none)) child
      (bundle_disk, record { open_fds = 3 ∷ 4 ∷ 2 ∷ 1 ∷ 0 ∷ []; misused = []; strays = [] })
      {b = books} refl
