-- ===== src/Tests/Stored.antt =====
-- Examples of the state files.
use vibe_kata.Base.{◌≡◌, refl, arith, true, false, some, is_some}
use vibe_kata.Base.Int.{pos, negsuc, to_int32}
use vibe_kata.Base.Bytes.{bytes, str_eq}
use vibe_kata.Files.Memory.{Disk, disk_files, disk_files-IsLawful}
use vibe_kata.Jansson.Value.{Value, json_values, json_values-IsLawful}
use vibe_kata.Types.{running, stopped}
use vibe_kata.State.{
  save, load, get_container_state_path, get_state_dir, mkdir_p, strip_slash, get_container_dir,
  mkdir_loop, mkdir_parents, mkdir_or_exists, ensure_container_dir, make_container_dir, write_state,
  dump_to, state_to_json, string_to_state, state_to_string, mode_to_string, string_to_mode,
  json_to_container, parse_state, string_member, integer_member,
}
use vibe_kata.State
use vibe_kata.State.RoundTrip.{load-save}
use vibe_kata.State.Loaded.{load-IsLoaded, IsLoaded}
use vibe_kata.Tests.Fixtures.{flushes}
use vibe_kata.Tests.World.{env, empty_disk, stored_disk, held}

saves : (save disk_files json_values env (held running (pos 7)) empty_disk).0 ≡ some tt
unfolding save ensure_container_dir make_container_dir mkdir_p mkdir_parents mkdir_loop
    mkdir_or_exists strip_slash get_state_dir get_container_dir get_container_state_path write_state
    dump_to disk_files json_values state_to_json state_to_string mode_to_string str_eq
saves = refl

c_path : get_container_state_path env (bytes "c") ≡ bytes "/r/c/state.json"
unfolding get_container_state_path get_state_dir str_eq
c_path = refl

d_path : get_container_state_path env (bytes "d") ≡ bytes "/r/d/state.json"
unfolding get_container_state_path get_state_dir str_eq
d_path = refl

c_encodes : is_some (json_values.string (bytes "c")) ≡ true
unfolding json_values
c_encodes = refl

b_encodes : is_some (json_values.string (bytes "/b")) ≡ true
unfolding json_values
b_encodes = refl

load-save_example :
    load disk_files json_values env
      (bytes "c")
      (save disk_files json_values env (held running (pos 7)) empty_disk).1
    ≡ some (record (held running (pos 7)) {
      state_file = some (get_container_state_path env (bytes "c"));
      control_fd = negsuc 0;
    })
load-save_example =
    load-save env disk_files-IsLawful json_values-IsLawful (held running (pos 7)) (bytes "c")
      empty_disk (saves, flushes (held running (pos 7)) empty_disk) refl (ground arith)
      (ground arith) (omega arith) c_encodes b_encodes

abbrev stored : Disk Value
stored = stored_disk (bytes "running") 7

loads_stored : load disk_files json_values env (bytes "c") stored ≡ some (held running (pos 7))
unfolding load parse_state json_to_container string_member integer_member string_to_state
    string_to_mode get_container_state_path get_state_dir disk_files json_values str_eq to_int32
loads_stored = refl

load-IsLoaded_example :
    IsLoaded json_values (get_container_state_path env (bytes "c")) (held running (pos 7))
load-IsLoaded_example =
    load-IsLoaded disk_files env json_values-IsLawful (bytes "c") stored loads_stored

stored-IsLoaded :
    IsLoaded json_values (get_container_state_path env (bytes "c")) (held running (pos 7))
stored-IsLoaded = load-IsLoaded disk_files env json_values-IsLawful (bytes "c") stored loads_stored

saves_stopped : (save disk_files json_values env (held stopped (pos 0)) stored).0 ≡ some tt
unfolding save ensure_container_dir make_container_dir mkdir_p mkdir_parents mkdir_loop
    mkdir_or_exists strip_slash get_state_dir get_container_dir get_container_state_path write_state
    dump_to disk_files json_values state_to_json state_to_string mode_to_string str_eq
saves_stopped = refl

apart :
    str_eq (get_container_state_path env (bytes "c")) (get_container_state_path env (bytes "d"))
    ≡ false
unfolding get_container_state_path get_state_dir str_eq
apart = refl

deletes : (State.delete disk_files env (bytes "c") stored).0 ≡ some tt
unfolding State.delete get_container_state_path get_container_dir get_state_dir disk_files str_eq
deletes = refl
