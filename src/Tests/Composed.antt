-- ===== src/Tests/Composed.antt =====
-- An example of a run that creates, starts, waits for and deletes a container.
use mathlib.Core.Option.{some-injective}
use vibe_kata.Base.{
  ◌≡◌, refl, ap, subst, ◌∙◌, true, Option, none, some, inl, arith, ℕ, if◌then◌else◌,
}
use vibe_kata.Base.Int.{ℤ}
use vibe_kata.Base.Bytes.{CString, bytes, str_eq}
use vibe_kata.Base.Int.{to_int32}
use vibe_kata.Files.Memory.{Disk, disk_files, disk_files-IsLawful}
use vibe_kata.Jansson.Value.{Value, json_values, json_values-IsLawful}
use vibe_kata.Types.{Options}
use vibe_kata.State
use vibe_kata.Container.Context.{Context}
use vibe_kata.Container.Process.{
  container_exec, await_child, clone_child, container_signal, container_wait, is_runnable,
  exec_context, container_child_fn, run_program, enter_cwd, set_hostname,
}
use vibe_kata.Container.Mounts.{setup_rootfs}
use vibe_kata.State.{
  get_container_state_path, get_state_dir, mkdir_p, strip_slash, get_container_dir, mkdir_loop,
  mkdir_parents, mkdir_or_exists, ensure_container_dir, make_container_dir, write_state, dump_to,
  state_to_json, string_to_state, state_to_string, mode_to_string, string_to_mode,
  json_to_container, parse_state, string_member, integer_member,
}
use vibe_kata.Oci.{spec_load, spec_validate, parse_spec, config_path}
use vibe_kata.Container.Cgroups.{cgroup_delete}
use vibe_kata.Lifecycle.{
  exit_code_of, has_process, stop_process, finish_run, ensure_state_dir, has_valid_spec, create_new,
  new_container, prepare_container, prepare_spec, context_namespaces, launch, attach_to, create,
  start, run, prepare, context_of, returned, crashed, Outcome, delete, as_running, as_stopped,
}
use vibe_kata.Lifecycle.Steps.{Saves, LaunchStored, EndStored, Deletes, Reach}
use vibe_kata.Lifecycle.Composed.{run_of_created, run-Reach}
use vibe_kata.Tests.World.{env, bundle_disk, options, kernel}
use vibe_kata.Tests.Fixtures.{flushes, b_encodes, world_of, kernel-PidsFit}
use vibe_kata.Lifecycle.Change.{Life}
use vibe_kata.Lifecycle.History.{Reach-Life}
use vibe_kata.Tests.Others.{kernel-Undisturbed}
use vibe_kata.Tests.History.{encodes, apart, no_name, stored as at, Ids, none_stored}

-- The property of the value, if there is one.
abbrev OnSome {ℓ} : {A : Type ℓ} → Option A → (A → Type 0) → Type 0
OnSome none P = Unit
OnSome (some a) P = P a

on_some {ℓ} : {A : Type ℓ} (o : Option A) (P : A → Type 0) → OnSome o P → (a : A) → o ≡ some a → P a
on_some none P h a e = absurd (ground arith)
on_some (some b) P h a e = subst P (some-injective b a e) h

-- The options of a run with `--rm`.
abbrev pub options_rm : Options
options_rm = record options { rm = true }

abbrev i : CString
i = bytes "c"

abbrev created_world : Disk Value
created_world = (create disk_files json_values env options_rm i bundle_disk).1

abbrev executed : Context → Option ℤ × Disk Value
executed ctx = container_exec disk_files (kernel none) ctx created_world

-- The stores of the start, for what the preparation, the context and the child turn out to be.
stored : OnSome (prepare disk_files json_values env i created_world) (λ p.
    OnSome (context_of p) (λ ctx. OnSome (executed ctx).0 (λ pid.
      Saves disk_files json_values env (kernel none) (as_running p.stored pid) (executed ctx).1
      × Saves disk_files json_values env
          (kernel none)
          (as_stopped p.stored)
          ((kernel none).waitpid pid
            (State.save disk_files json_values env
              (as_running p.stored pid)
              (executed ctx).1).1).1)))
unfolding start prepare prepare_container prepare_spec context_of context_namespaces launch
    attach_to State.load State.save parse_state json_to_container string_member integer_member
    string_to_state string_to_mode get_container_state_path get_state_dir ensure_container_dir
    make_container_dir mkdir_p mkdir_parents mkdir_loop mkdir_or_exists strip_slash
    get_container_dir write_state dump_to state_to_json state_to_string mode_to_string disk_files
    json_values str_eq to_int32 spec_load parse_spec config_path container_exec clone_child
    await_child is_runnable exec_context container_child_fn setup_rootfs enter_cwd set_hostname
    run_program create create_new ensure_state_dir has_valid_spec new_container State.exists
    spec_validate
stored = ((refl, refl), (refl, refl))

pub launch_stored : LaunchStored disk_files json_values env (kernel none) i created_world
launch_stored p ctx pid prepared contexted started =
    (on_some _ _ (on_some _ _ (on_some _ _ stored p prepared) ctx contexted) pid started).0

pub end_stored : EndStored disk_files json_values env (kernel none) i created_world
end_stored p ctx pid prepared contexted started =
    (on_some _ _ (on_some _ _ (on_some _ _ stored p prepared) ctx contexted) pid started).1

abbrev ended_world : Disk Value
ended_world = world_of (start disk_files json_values env (kernel none) i true created_world)

deletable : OnSome (State.load disk_files json_values env i ended_world) (λ c.
    (State.delete disk_files env i
      (cgroup_delete disk_files (kernel none) i (
        if has_process c
        then stop_process (kernel none) c.init_pid ended_world
        else ended_world)).1).0
    ≡ some tt)
unfolding start prepare prepare_container prepare_spec context_of context_namespaces launch
    attach_to State.load State.save parse_state json_to_container string_member integer_member
    string_to_state string_to_mode get_container_state_path get_state_dir ensure_container_dir
    make_container_dir mkdir_p mkdir_parents mkdir_loop mkdir_or_exists strip_slash
    get_container_dir write_state dump_to state_to_json state_to_string mode_to_string disk_files
    json_values str_eq to_int32 spec_load parse_spec config_path container_exec clone_child
    await_child is_runnable exec_context container_child_fn setup_rootfs enter_cwd set_hostname
    run_program create create_new ensure_state_dir has_valid_spec new_container State.exists
    spec_validate delete stop_process cgroup_delete container_signal State.delete container_wait
deletable = refl

pub Deletes-ended_world :
    (v : Disk Value) (s : Option ℕ)
    → start disk_files json_values env (kernel none) i true created_world ≡ returned s v
    → Deletes disk_files json_values env (kernel none) i v
Deletes-ended_world v s h =
    subst (Deletes disk_files json_values env (kernel none) i) (ap world_of h)
      (λ c loaded. on_some _ _ deletable c loaded)

-- The program exits with 7, and the container is deleted.
abbrev pub run_world : Disk Value
run_world = (delete disk_files json_values env (kernel none) i ended_world).1

abbrev code_of : Outcome (Disk Value) ℕ → Option (Option ℕ)
code_of crashed = none
code_of (returned r w) = some r

returned_of :
    (o : Outcome (Disk Value) ℕ) {r : Option ℕ} → code_of o ≡ some r → o ≡ returned r (world_of o)
returned_of crashed h = absurd (ground arith)
returned_of (returned r w) h = ap (λ s. returned s w) (ground arith)

starts_code :
    code_of (start disk_files json_values env (kernel none) i true created_world) ≡ some (some 7)
unfolding start prepare prepare_container prepare_spec context_of context_namespaces launch
    attach_to State.load State.save parse_state json_to_container string_member integer_member
    string_to_state string_to_mode get_container_state_path get_state_dir ensure_container_dir
    make_container_dir mkdir_p mkdir_parents mkdir_loop mkdir_or_exists strip_slash
    get_container_dir write_state dump_to state_to_json state_to_string mode_to_string disk_files
    json_values str_eq to_int32 spec_load parse_spec config_path container_exec clone_child
    await_child is_runnable exec_context container_child_fn setup_rootfs enter_cwd set_hostname
    run_program create create_new ensure_state_dir has_valid_spec new_container State.exists
    spec_validate container_wait exit_code_of
starts_code = refl

pub creates_rm : (create disk_files json_values env options_rm i bundle_disk).0 ≡ some tt
unfolding start prepare prepare_container prepare_spec context_of context_namespaces launch
    attach_to State.load State.save parse_state json_to_container string_member integer_member
    string_to_state string_to_mode get_container_state_path get_state_dir ensure_container_dir
    make_container_dir mkdir_p mkdir_parents mkdir_loop mkdir_or_exists strip_slash
    get_container_dir write_state dump_to state_to_json state_to_string mode_to_string disk_files
    json_values str_eq to_int32 spec_load parse_spec config_path container_exec clone_child
    await_child is_runnable exec_context container_child_fn setup_rootfs enter_cwd set_hostname
    run_program create create_new ensure_state_dir has_valid_spec new_container State.exists
    spec_validate
creates_rm = refl

deletes_rm : (delete disk_files json_values env (kernel none) i ended_world).0 ≡ some tt
unfolding start prepare prepare_container prepare_spec context_of context_namespaces launch
    attach_to State.load State.save parse_state json_to_container string_member integer_member
    string_to_state string_to_mode get_container_state_path get_state_dir ensure_container_dir
    make_container_dir mkdir_p mkdir_parents mkdir_loop mkdir_or_exists strip_slash
    get_container_dir write_state dump_to state_to_json state_to_string mode_to_string disk_files
    json_values str_eq to_int32 spec_load parse_spec config_path container_exec clone_child
    await_child is_runnable exec_context container_child_fn setup_rootfs enter_cwd set_hostname
    run_program create create_new ensure_state_dir has_valid_spec new_container State.exists
    spec_validate delete stop_process cgroup_delete container_signal State.delete container_wait
deletes_rm = refl

finishes :
    (w : Disk Value)
    → (delete disk_files json_values env (kernel none) i w).0 ≡ some tt
    → finish_run disk_files json_values env (kernel none) options_rm i (returned (some 7) w)
      ≡ returned (some 7) (delete disk_files json_values env (kernel none) i w).1
unfolding finish_run
finishes w gone = ground (arith, gone)

pub runs :
    run disk_files json_values env (kernel none) options_rm i bundle_disk
    ≡ returned (some 7) run_world
runs =
    run_of_created disk_files json_values env (kernel none) options_rm i bundle_disk creates_rm
    ∙ ap (finish_run disk_files json_values env (kernel none) options_rm i) (
        returned_of (start disk_files json_values env (kernel none) i true created_world)
          {r = some 7} starts_code)
    ∙ finishes ended_world deletes_rm

run_reaches : Reach disk_files json_values env (kernel none) Ids bundle_disk run_world
run_reaches =
    run-Reach disk_files json_values env (kernel none) Ids i (inl refl) options_rm bundle_disk
      {r = some 7} {w' = run_world} runs (record { full = ground arith; encodes = b_encodes })
      (none_stored i (inl refl)) creates_rm (flushes _ _) launch_stored (λ _. end_stored)
      (λ _. Deletes-ended_world)

-- The life of the container in this run.
Reach-Life_example : Life i (at i bundle_disk) (at i run_world)
Reach-Life_example =
    Reach-Life env (kernel none) disk_files-IsLawful json_values-IsLawful (kernel-PidsFit none) Ids
      encodes apart (λ j m. kernel-Undisturbed j) {w = bundle_disk} {v = run_world} no_name
      run_reaches i (inl refl)
