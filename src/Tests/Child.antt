-- ===== src/Tests/Child.antt =====
-- Examples of the container's process.
use vibe_kata.Base.{◌≡◌, refl, true, false, none, some, [], ◌∷◌}
use vibe_kata.Base.Int.{pos}
use vibe_kata.Base.Bytes.{bytes}
use vibe_kata.Jansson.Value.{Value}
use vibe_kata.Container.Context.{Context}
use vibe_kata.Base.Bits.{has_flag}
use vibe_kata.Container.Mounts.Custom.{
  add_option_flags, mask, ro, spelling, mentions, has_flag-add_option_flags,
}
use vibe_kata.Container.Namespaces.{pid, network}
use vibe_kata.Container.Namespaces.Join.{namespace_join, join_all, setup_namespaces}
use vibe_kata.Container.Namespaces.Joined.{AllJoined, setup_namespaces_joins}
use vibe_kata.Container.Cgroups.{write_control, cgroup_set_memory_limit}
use vibe_kata.Container.Cgroups.Written.{memory, IsWritten, set_limit-IsWritten}
use vibe_kata.Container.Process.{namespaces_of}
use vibe_kata.Tests.World.{empty_disk, kernel}

abbrev shell : Context
shell = record {
  rootfs = some (bytes "/b/fs");
  namespaces = none;
  namespaces_len = 0;
  cgroup = none;
  env = none;
  env_len = 0;
  cwd = some (bytes "/");
  args = some (some (bytes "sh") ∷ []);
  args_len = 1;
  terminal = false;
}

has_flag-add_option_flags_example :
    has_flag (add_option_flags 0 (bytes "rbind" ∷ bytes "ro" ∷ [])) (mask ro)
    ≡ mentions (spelling ro) (bytes "rbind" ∷ bytes "ro" ∷ [])
has_flag-add_option_flags_example = has_flag-add_option_flags ro (bytes "rbind" ∷ bytes "ro" ∷ [])

-- The shell in the network namespace of the file `/n`, and in a PID namespace of its own.
abbrev networked : Context
networked = record shell {
  namespaces = some (
      record { type = pid; path = none; enable = true }
      ∷ record { type = network; path = some (bytes "/n"); enable = true }
      ∷ []);
  namespaces_len = 2;
}

joins : (setup_namespaces (kernel none) networked empty_disk).0 ≡ some tt
unfolding setup_namespaces join_all namespace_join
joins = refl

setup_namespaces_joins_example :
    AllJoined
      (kernel none)
      (namespaces_of networked)
      empty_disk
      (setup_namespaces (kernel none) networked empty_disk).1
setup_namespaces_joins_example = setup_namespaces_joins (kernel none) networked empty_disk joins

limited : (cgroup_set_memory_limit (kernel none) (bytes "c") 1048576 empty_disk).0 ≡ some tt
unfolding cgroup_set_memory_limit write_control
limited = refl

set_limit-IsWritten_example :
    IsWritten (kernel none) (bytes "c") (bytes "/memory.max") (pos 1048576) empty_disk
set_limit-IsWritten_example =
    set_limit-IsWritten (kernel none) memory (bytes "c") 1048576 empty_disk refl limited
