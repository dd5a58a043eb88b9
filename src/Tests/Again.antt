-- ===== src/Tests/Again.antt =====
-- Examples of an id that is used again, and of the texts of a process id.
use mathlib.Core.Option.{some-injective}
use vibe_kata.Base.{
  ◌≡◌, refl, sym, ◌∙◌, subst, true, false, none, some, get_elem?, arith, if◌then◌else◌,
}
use vibe_kata.Base.Int.{pos, le_zero, to_int32}
use vibe_kata.Base.Bytes.{CString, bytes, str_eq}
use vibe_kata.Base.Decimal.{int_value}
use vibe_kata.Files.{directory}
use vibe_kata.Files.Memory.{Disk, disk_files, disk_files-IsLawful}
use vibe_kata.Jansson.Value.{Value, json_values, json_values-IsLawful}
use vibe_kata.Types.{Container, running}
use vibe_kata.State
use vibe_kata.State.{
  get_container_state_path, get_state_dir, mkdir_p, strip_slash, get_container_dir, mkdir_loop,
  mkdir_parents, mkdir_or_exists, ensure_container_dir, make_container_dir, write_state, dump_to,
  state_to_json, string_to_state, state_to_string, mode_to_string, string_to_mode,
  json_to_container, parse_state, string_member, integer_member,
}
use vibe_kata.Oci.{spec_load, spec_validate, parse_spec, config_path}
use vibe_kata.Container.Cgroups.{cgroup_delete}
use vibe_kata.Container.Process.{container_signal}
use vibe_kata.Lifecycle.{
  ensure_state_dir, create_new, has_process, stop_process, create, new_container, delete,
  has_valid_spec, nsenter_argv, write_container_pid_file,
}
use vibe_kata.Lifecycle.Steps.{Deletes, Saves}
use vibe_kata.Lifecycle.Again.{delete-create}
use vibe_kata.Lifecycle.Pid.{write_container_pid_file_writes, nsenter_argv_names}
use vibe_kata.Tests.World.{env, held, options, kernel}
use vibe_kata.Tests.Fixtures.{running_disk, loads_running, b_encodes, c_encodes}
use vibe_kata.Tests.Ended.{deletes}

abbrev i : CString
i = bytes "c"

nsenter_argv_names_example :
    (s : CString) × (get_elem? (nsenter_argv (pos 7) none) 2 ≡ some s) × (int_value s ≡ pos 7)
nsenter_argv_names_example =
    nsenter_argv_names disk_files json_values env (kernel none) json_values-IsLawful i running_disk
      {c = held running (pos 7)} none loads_running

Deletes-running_disk : Deletes disk_files json_values env (kernel none) i running_disk
Deletes-running_disk c loaded =
    subst
      (λ (x : Container).
        (State.delete disk_files env i
          (cgroup_delete disk_files (kernel none) i (
            if has_process x
            then stop_process (kernel none) x.init_pid running_disk
            else running_disk)).1).0
        ≡ some tt)
      (some-injective (held running (pos 7)) c (sym loads_running ∙ loaded)) deletes

abbrev freed : Disk Value
freed = (delete disk_files json_values env (kernel none) i running_disk).1

dir_there : disk_files.stat (get_state_dir env) freed ≡ some directory
unfolding create create_new ensure_state_dir has_valid_spec new_container State.exists State.save
    ensure_container_dir make_container_dir mkdir_p mkdir_parents mkdir_loop mkdir_or_exists
    strip_slash get_state_dir get_container_dir get_container_state_path write_state dump_to
    disk_files json_values state_to_json state_to_string mode_to_string str_eq spec_load parse_spec
    config_path spec_validate delete State.delete State.load parse_state json_to_container
    string_member integer_member string_to_state string_to_mode to_int32 cgroup_delete stop_process
    container_signal
dir_there = refl

valid_there : has_valid_spec disk_files json_values env (bytes "/b") freed ≡ true
unfolding create create_new ensure_state_dir has_valid_spec new_container State.exists State.save
    ensure_container_dir make_container_dir mkdir_p mkdir_parents mkdir_loop mkdir_or_exists
    strip_slash get_state_dir get_container_dir get_container_state_path write_state dump_to
    disk_files json_values state_to_json state_to_string mode_to_string str_eq spec_load parse_spec
    config_path spec_validate delete State.delete State.load parse_state json_to_container
    string_member integer_member string_to_state string_to_mode to_int32 cgroup_delete stop_process
    container_signal
valid_there = refl

saved_there : Saves disk_files json_values env (kernel none) (new_container options i) freed
unfolding create create_new ensure_state_dir has_valid_spec new_container State.exists State.save
    ensure_container_dir make_container_dir mkdir_p mkdir_parents mkdir_loop mkdir_or_exists
    strip_slash get_state_dir get_container_dir get_container_state_path write_state dump_to
    disk_files json_values state_to_json state_to_string mode_to_string str_eq spec_load parse_spec
    config_path spec_validate delete State.delete State.load parse_state json_to_container
    string_member integer_member string_to_state string_to_mode to_int32 cgroup_delete stop_process
    container_signal
saved_there = (refl, refl)

delete-create_example :
    ((create disk_files json_values env options i freed).0 ≡ some tt)
    × (State.load disk_files json_values env i (create disk_files json_values env options i freed).1
        ≡ some (record (new_container options i) {
          state_file = some (get_container_state_path env i);
        }))
delete-create_example =
    delete-create env (kernel none) disk_files-IsLawful json_values-IsLawful options i running_disk
      {c = held running (pos 7)} loads_running Deletes-running_disk
      (record { full = ground arith; encodes = b_encodes }) c_encodes dir_there valid_there
      saved_there

written :
    (write_container_pid_file disk_files json_values env
      (kernel none)
      (bytes "/p")
      i
      running_disk).0
    ≡ some tt
unfolding write_container_pid_file State.load parse_state json_to_container string_member
    integer_member string_to_state string_to_mode to_int32 get_container_state_path get_state_dir
    disk_files json_values str_eq
written = refl

write_container_pid_file_writes_example :
    (c : Container) × (line : CString) × (State.load disk_files json_values env i running_disk
      ≡ some c)
    × (le_zero c.init_pid ≡ false)
    × ((kernel none).write_file (bytes "/p") line running_disk ≡ (
      true,
      (write_container_pid_file disk_files json_values env
          (kernel none)
          (bytes "/p")
          i
          running_disk).1,
    ))
    × (int_value line ≡ c.init_pid)
write_container_pid_file_writes_example =
    write_container_pid_file_writes disk_files json_values env (kernel none) (bytes "/p") i
      running_disk refl written
