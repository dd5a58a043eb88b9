-- ===== src/Tests/Started.antt =====
-- Examples of `nk_container_start`.
use vibe_kata.Base.{◌≡◌, ◌≢◌, refl, subst, sym, ◌∙◌, arith, true, false, none, some, inl, ℕ}
use mathlib.Core.Option.{some-injective}
use vibe_kata.Base.Int.{ℤ, pos, to_int32}
use vibe_kata.Base.Bytes.{bytes, str_eq}
use vibe_kata.Files.Memory.{Disk, disk_files, disk_files-IsLawful}
use vibe_kata.Jansson.Value.{Value, json_values, json_values-IsLawful}
use vibe_kata.Types.{created, running, Container}
use vibe_kata.State
use vibe_kata.State.{
  get_container_state_path, get_state_dir, mkdir_p, strip_slash, get_container_dir, mkdir_loop,
  mkdir_parents, mkdir_or_exists, ensure_container_dir, make_container_dir, write_state, dump_to,
  state_to_json, string_to_state, state_to_string, mode_to_string, string_to_mode,
  json_to_container, parse_state, string_member, integer_member,
}
use vibe_kata.State.Saved.{Saved}
use vibe_kata.Oci.{spec_load, parse_spec, config_path}
use vibe_kata.Container.Kernel.{WaitStatus}
use vibe_kata.Container.Context.{Context}
use vibe_kata.Container.Mounts.{setup_rootfs}
use vibe_kata.Container.Process.{
  container_exec, container_wait, await_child, clone_child, is_runnable, exec_context,
  container_child_fn, run_program, enter_cwd, set_hostname,
}
use vibe_kata.Lifecycle.{
  context_of, context_namespaces, Prepared, prepare, prepare_container, prepare_spec, launch,
  attach_to, start, Outcome, returned, exit_code_of, as_running, as_stopped,
}
use vibe_kata.Lifecycle.Started.{start_refused, start_attached, HasCode}
use vibe_kata.Tests.World.{env, held, kernel}
use vibe_kata.Tests.Fixtures.{
  created_disk, running_disk, world_of, same_id, loads_created, loads_running, c_encodes,
}

pub starts :
    start disk_files json_values env (kernel none) (bytes "c") false created_disk
    ≡ returned
        (some 0)
        (world_of (start disk_files json_values env (kernel none) (bytes "c") false created_disk))
unfolding start prepare prepare_container prepare_spec context_of context_namespaces launch
    attach_to State.load State.save parse_state json_to_container string_member integer_member
    string_to_state string_to_mode get_container_state_path get_state_dir ensure_container_dir
    make_container_dir mkdir_p mkdir_parents mkdir_loop mkdir_or_exists strip_slash
    get_container_dir write_state dump_to state_to_json state_to_string mode_to_string disk_files
    json_values str_eq to_int32 spec_load parse_spec config_path container_exec clone_child
    await_child is_runnable exec_context container_child_fn setup_rootfs enter_cwd set_hostname
    run_program
starts = refl

starts_attached :
    start disk_files json_values env (kernel none) (bytes "c") true created_disk
    ≡ returned
        (some 7)
        (world_of (start disk_files json_values env (kernel none) (bytes "c") true created_disk))
unfolding start prepare prepare_container prepare_spec context_of context_namespaces launch
    attach_to State.load State.save parse_state json_to_container string_member integer_member
    string_to_state string_to_mode get_container_state_path get_state_dir ensure_container_dir
    make_container_dir mkdir_p mkdir_parents mkdir_loop mkdir_or_exists strip_slash
    get_container_dir write_state dump_to state_to_json state_to_string mode_to_string disk_files
    json_values str_eq to_int32 spec_load parse_spec config_path container_exec clone_child
    await_child is_runnable exit_code_of container_wait exec_context container_child_fn setup_rootfs
    enter_cwd set_hostname run_program
starts_attached = refl

abbrev attached : Outcome (Disk Value) ℕ
attached = start disk_files json_values env (kernel none) (bytes "c") true created_disk

start_attached_example :
    (p : Prepared) × (ctx : Context) × (pid : ℤ) × (status : WaitStatus) × (State.load disk_files
        json_values env
        (bytes "c")
        created_disk
      ≡ some p.stored)
    × (p.stored.state ≡ created)
    × (context_of p ≡ some ctx)
    × ((container_exec disk_files (kernel none) ctx created_disk).0 ≡ some pid)
    × (let v =
          (State.save disk_files json_values env
            (as_running p.stored pid)
            (container_exec disk_files (kernel none) ctx created_disk).1).1 in
        ((container_wait (kernel none) pid v).0 ≡ some status)
        × HasCode status 7
        × (Saved disk_files json_values env
              (as_stopped p.stored)
              (container_wait (kernel none) pid v).1
            → State.load disk_files json_values env (bytes "c") (world_of attached)
              ≡ some (as_stopped p.stored)))
start_attached_example =
    start_attached env (kernel none) disk_files-IsLawful json_values-IsLawful (bytes "c")
      created_disk c_encodes (λ c l. same_id _ (held created (pos 0)) c loads_created l refl)
      {n = 7} {w' = world_of attached} starts_attached

start_refused_example :
    start disk_files json_values env (kernel none) (bytes "c") false running_disk
    ≡ returned none running_disk
start_refused_example =
    start_refused disk_files json_values env (kernel none) (bytes "c") false running_disk (λ c l.
      inl (
        subst (λ (x : Container). x.state ≢ created)
          (some-injective (held running (pos 7)) c (sym loads_running ∙ l)) (ground arith)))
