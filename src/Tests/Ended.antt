-- ===== src/Tests/Ended.antt =====
-- Examples of the other commands.
use vibe_kata.Base.{◌≡◌, refl, true, false, none, some}
use vibe_kata.Base.Int.{pos}
use vibe_kata.Base.Bytes.{bytes, str_eq}
use vibe_kata.Files.{enoent}
use vibe_kata.Files.Memory.{Disk, disk_files, disk_files-IsLawful}
use vibe_kata.Jansson.Value.{Value, json_values, json_values-IsLawful}
use vibe_kata.Types.{running}
use vibe_kata.State
use vibe_kata.State.{
  get_container_state_path, get_state_dir, mkdir_p, strip_slash, get_container_dir, mkdir_loop,
  mkdir_parents, mkdir_or_exists, ensure_container_dir, make_container_dir, write_state, dump_to,
  state_to_json, string_to_state, state_to_string, mode_to_string, string_to_mode,
  json_to_container, parse_state, string_member, integer_member,
}
use vibe_kata.State.Saved.{Saved}
use vibe_kata.Oci.{spec_load, spec_validate, parse_spec, config_path}
use vibe_kata.Container.Process.{container_signal}
use vibe_kata.Container.Cgroups.{cgroup_delete}
use vibe_kata.Lifecycle.{
  ensure_state_dir, new_container, has_valid_spec, create_new, create, as_stopped, is_pid_alive,
  stop_process, delete, resume,
}
use vibe_kata.Lifecycle.Created.{create_existing}
use vibe_kata.Lifecycle.Ended.{resume_dead, delete_removes}
use vibe_kata.Tests.World.{env, bundle_disk, held, options, kernel}
use vibe_kata.Tests.Fixtures.{running_disk, loads_running, c_encodes}

dead_at : (w : Disk Value) → (is_pid_alive (kernel (some enoent)) (pos 7) w).0 ≡ false
unfolding is_pid_alive
dead_at w = refl

-- The state after the two tests of the process.
abbrev after_tests : Disk Value
after_tests =
    (is_pid_alive (kernel (some enoent)) (pos 7)
      (is_pid_alive (kernel (some enoent)) (pos 7) running_disk).1).1

saves_stopped : Saved disk_files json_values env (as_stopped (held running (pos 7))) after_tests
unfolding State.save ensure_container_dir make_container_dir mkdir_p mkdir_parents mkdir_loop
    mkdir_or_exists strip_slash get_state_dir get_container_dir get_container_state_path write_state
    dump_to disk_files json_values state_to_json state_to_string mode_to_string str_eq is_pid_alive
saves_stopped = (refl, refl)

resume_dead_example :
    ((resume disk_files json_values env (kernel (some enoent)) (bytes "c") none running_disk).0
      ≡ none)
    × (Saved disk_files json_values env (as_stopped (held running (pos 7))) after_tests
        → State.load disk_files json_values env
            (bytes "c")
            (resume disk_files json_values env
              (kernel (some enoent))
              (bytes "c")
              none
              running_disk).1
          ≡ some (as_stopped (held running (pos 7))))
resume_dead_example =
    resume_dead json_values env (kernel (some enoent)) disk_files-IsLawful json_values-IsLawful
      (bytes "c") none running_disk (held running (pos 7)) loads_running refl c_encodes refl
      (dead_at running_disk) (dead_at _)

pub deletes :
    (State.delete disk_files env
      (bytes "c")
      (cgroup_delete disk_files
        (kernel none)
        (bytes "c")
        (stop_process (kernel none) (pos 7) running_disk)).1).0
    ≡ some tt
unfolding State.delete get_container_state_path get_container_dir get_state_dir disk_files str_eq
    cgroup_delete stop_process container_signal
deletes = refl

delete_removes_example :
    ((delete disk_files json_values env (kernel none) (bytes "c") running_disk).0 ≡ some tt)
    × ((State.delete disk_files env
            (bytes "c")
            (cgroup_delete disk_files
              (kernel none)
              (bytes "c")
              (stop_process (kernel none) (pos 7) running_disk)).1).0
          ≡ some tt
        → (State.load disk_files json_values env
              (bytes "c")
              (delete disk_files json_values env (kernel none) (bytes "c") running_disk).1
            ≡ none)
          × (State.exists disk_files env
                (bytes "c")
                (delete disk_files json_values env (kernel none) (bytes "c") running_disk).1
              ≡ false))
delete_removes_example =
    delete_removes json_values env (kernel none) disk_files-IsLawful (bytes "c") running_disk
      (held running (pos 7)) loads_running

is_there : State.exists disk_files env (bytes "c") running_disk ≡ true
unfolding State.exists get_container_state_path get_state_dir disk_files str_eq
is_there = refl

create_existing_example :
    ((create disk_files json_values env options (bytes "c") running_disk).0 ≡ none)
    × (State.load disk_files json_values env
          (bytes "c")
          (create disk_files json_values env options (bytes "c") running_disk).1
        ≡ State.load disk_files json_values env (bytes "c") running_disk)
create_existing_example =
    create_existing json_values env disk_files-IsLawful options (bytes "c") (bytes "c") running_disk
      is_there

pub creates_c : (create disk_files json_values env options (bytes "c") bundle_disk).0 ≡ some tt
unfolding create create_new ensure_state_dir has_valid_spec new_container State.exists State.save
    ensure_container_dir make_container_dir mkdir_p mkdir_parents mkdir_loop mkdir_or_exists
    strip_slash get_state_dir get_container_dir get_container_state_path write_state dump_to
    disk_files json_values state_to_json state_to_string mode_to_string str_eq spec_load parse_spec
    config_path spec_validate
creates_c = refl
