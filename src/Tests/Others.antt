-- ===== src/Tests/Others.antt =====
-- Examples of the commands on one container and the state file of another.
use vibe_kata.Base.{◌≡◌, refl, false, none}
use vibe_kata.Base.Bytes.{CString, bytes, str_eq}
use vibe_kata.Files.Memory.{disk_files}
use vibe_kata.State.{get_container_state_path, get_state_dir}
use vibe_kata.Lifecycle.Frame.{Undisturbed}
use vibe_kata.Tests.World.{env, kernel}

pub c_d_apart :
    str_eq (get_container_state_path env (bytes "c")) (get_container_state_path env (bytes "d"))
    ≡ false
unfolding get_container_state_path get_state_dir str_eq
c_d_apart = refl

pub kernel-Undisturbed :
    (i : CString) → Undisturbed disk_files (kernel none) (get_container_state_path env i)
unfolding disk_files get_container_state_path get_state_dir str_eq
kernel-Undisturbed i = record {
  read-kill = λ pid sig w. refl;
  read-usleep = λ time w. refl;
  read-open_fd = λ path w. refl;
  read-write = λ fd text w. refl;
  read-close = λ fd w. refl;
  read-pipe = λ w. refl;
  read-read_byte = λ fd w. refl;
  read-clone = λ flags child w. refl;
  read-fork_execvp = λ path argv w. refl;
  read-waitpid = λ pid w. refl;
}
