-- ===== src/Tests/World.antt =====
-- The disks, the environment and the kernel of the examples.
use Prim.Native.Nat.{ℕ}
use vibe_kata.Base.{true, false, Option, none, some, if◌then◌else◌}
use vibe_kata.Base.Int.{ℤ, pos, negsuc}
use vibe_kata.Base.Bytes.{CString, bytes, str_eq}
use vibe_kata.Files.{Errno}
use vibe_kata.Files.Memory.{Node, dir, file, Disk, update}
use vibe_kata.Jansson.Value.{Value, text, number, nil, cons, arr, obj, end, field}
use vibe_kata.Types.{ContainerState, container, Container, Options}
use vibe_kata.State.{Env}
use vibe_kata.Container.Kernel.{Kernel, exit_status}

-- The state directory is `/r`.
abbrev pub env : Env
env = record {
  getenv = λ name. if str_eq name (bytes "NS_RUN_DIR") then some (bytes "/r") else none;
  geteuid = 0;
}

abbrev pub empty_disk : Disk Value
empty_disk p = none

-- `config.json` of a bundle `/b`.
abbrev pub config : Value
config = obj (
    field (bytes "root") (obj (field (bytes "path") (text (bytes "fs")) end)) (
      field (bytes "process") (obj (field (bytes "args") (arr (cons (text (bytes "sh")) nil)) end))
        (field (bytes "annotations") (obj (field (bytes "k") (text (bytes "v")) end)) end)))

abbrev pub bundle_disk : Disk Value
bundle_disk =
    update (bytes "/b") (some dir)
      (update (bytes "/b/config.json") (some (file (some config))) empty_disk)

abbrev pub state_value : CString → ℕ → Value
state_value state n = obj (
    field (bytes "id") (text (bytes "c")) (
      field (bytes "bundle_path") (text (bytes "/b"))
        (field (bytes "state") (text state) (field (bytes "pid") (number (pos n)) end))))

-- A disk with the bundle and the container `c`, in a state.
abbrev pub stored_disk : CString → ℕ → Disk Value
stored_disk state n = update (bytes "/r") (some dir) (
    update (bytes "/r/c") (some dir)
      (update (bytes "/r/c/state.json") (some (file (some (state_value state n)))) bundle_disk))

abbrev pub options : Options
options = record {
  command = bytes "run";
  container_id = some (bytes "c");
  bundle_path = bytes "/b";
  pid_file = none;
  resume_exec = none;
  mode = container;
  attach = true;
  detach = false;
  rm = false;
}

-- The container `c` in the state and with the process.
abbrev pub held : ContainerState → ℤ → Container
held s p = record {
  id = some (bytes "c");
  bundle_path = some (bytes "/b");
  state = s;
  mode = container;
  init_pid = p;
  state_file = some (bytes "/r/c/state.json");
  control_fd = negsuc 0;
}

abbrev succeeds : Disk Value → Option Errno × Disk Value
succeeds w = (none, w)

-- The byte that stands in the pipe.
abbrev pub pipe_byte : Option (Node Value) → Option ℕ
pipe_byte (some (file (some (number (pos b))))) = some b
pipe_byte _ = none

abbrev pub sent_node : Option ℕ → Option (Node Value)
sent_node none = none
sent_node (some b) = some (file (some (number (pos b))))

-- A kernel in which every call succeeds and every child is process 42, whose pipe is the file `p`.
-- It answers to `kill` that a process is there if it is not `dead`.
abbrev pub kernel : Option Errno → Kernel (Disk Value)
kernel dead = record {
  mount = λ source target type flags options w. succeeds w;
  umount2 = λ path flags w. succeeds w;
  pivot_root = λ new old w. succeeds w;
  chdir = λ path w. succeeds w;
  mknod = λ path mode device w. succeeds w;
  symlink = λ target path w. succeeds w;
  sethostname = λ name w. succeeds w;
  setrlimit_stack = λ size w. succeeds w;
  setsid = succeeds;
  setgid = λ gid w. succeeds w;
  setuid = λ uid w. succeeds w;
  open_read = λ path w. (some 6, w);
  open_fd = λ path w. (some 5, w);
  write = λ fd s w. (true, w);
  close = λ fd w. w;
  setns = λ fd type w. succeeds w;
  execve = λ path argv envp w. (true, w);
  pipe = λ w. (some (3, 4), w);
  read_byte = λ fd w. (pipe_byte (w (bytes "p")), w);
  clone = λ flags child w. (some (pos 42), update (bytes "p") (sent_node (child w).0.sent) w);
  fork_execvp = λ path argv w. (some (pos 43), w);
  write_file = λ path s w. (true, w);
  waitpid = λ pid w. (some (exit_status 7), w);
  kill = λ pid sig w. (dead, w);
  usleep = λ time w. w;
  readable = λ path w. true;
}
