-- ===== src/Container/Kernel.antt =====
-- The system calls of src/container/*.c and src/main.c, apart from those of `Files`: an interface over a
-- world `W`. A call that may fail returns its errno, if it does.
use vibe_kata.Base.{ℕ, ◌≡◌, Bool, Option, some, List}
use vibe_kata.Base.Int.{ℤ}
use vibe_kata.Base.Bytes.{CString}
use vibe_kata.Files.{Errno}

-- How the function that `clone` starts ends: by its exit status, or in the program of an `execve`.
pub data Ending : Type 0 where
  exited : ℕ → Ending
  executed : Option CString → List CString → List CString → Ending

-- A run of the child: the byte that it wrote to the pipe, if it wrote one, and its end.
pub record ChildRun : Type 0 where
  pub sent : Option ℕ
  pub ending : Ending

-- The status that `waitpid` stores, as WIFEXITED and WIFSIGNALED read it.
pub data WaitStatus : Type 0 where
  exit_status : ℕ → WaitStatus
  term_signal : ℕ → WaitStatus
  other_status : WaitStatus

pub record Kernel (W : Type 0) : Type 0 where
  -- source, target, type, flags, data
  pub mount : Option CString → CString → Option CString → ℕ → Option CString → W → Option Errno × W
  pub umount2 : CString → ℕ → W → Option Errno × W
  pub pivot_root : CString → CString → W → Option Errno × W
  pub chdir : CString → W → Option Errno × W
  -- path, mode, device
  pub mknod : CString → ℕ → ℕ → W → Option Errno × W
  -- target, path
  pub symlink : CString → CString → W → Option Errno × W
  pub sethostname : CString → W → Option Errno × W
  pub setrlimit_stack : ℕ → W → Option Errno × W
  pub setsid : W → Option Errno × W
  pub setgid : ℕ → W → Option Errno × W
  pub setuid : ℕ → W → Option Errno × W
  -- `open(path, O_RDONLY)`
  pub open_read : CString → W → Option ℕ × W
  -- `open(path, O_WRONLY)`, `write(fd, s, strlen(s))`, which is also what `dprintf` does, and `close`
  pub open_fd : CString → W → Option ℕ × W
  pub write : ℕ → CString → W → Bool × W
  pub close : ℕ → W → W
  pub setns : ℕ → ℕ → W → Option Errno × W
  pub execve : Option CString → List CString → List CString → W → Bool × W
  -- `pipe`: the end to read and the end to write
  pub pipe : W → Option (ℕ × ℕ) × W
  -- One byte of the pipe; `none` is the end of the file or an error.
  pub read_byte : ℕ → W → Option ℕ × W
  -- `clone(child, stack, flags, arg)`: the child runs `child` in a world of its own.
  pub clone : ℕ → (W → ChildRun × W) → W → Option ℤ × W
  -- `fork` of a child that calls `execvp(file, argv)`, and `_exit(127)` where that fails
  pub fork_execvp : CString → List CString → W → Option ℤ × W
  -- `fopen(path, "w")`, `fprintf` and `fclose`: whether the file opens; whether
  -- the text is written is not looked at
  pub write_file : CString → CString → W → Bool × W
  pub waitpid : ℤ → W → Option WaitStatus × W
  pub kill : ℤ → ℕ → W → Option Errno × W
  pub usleep : ℕ → W → W
  -- `access(path, R_OK) == 0`
  pub readable : CString → W → Bool

-- The pipe of a child delivers what the child wrote.
pub record PipesDeliver {W : Type 0} (k : Kernel W) : Type 0 where
  pub delivered :
      (flags : ℕ) (child : W → ChildRun × W) (w w' : W) (fd_read fd_write : ℕ) {pid : ℤ} {b : ℕ}
      → k.clone flags child w ≡ (some pid, w')
      → (k.read_byte fd_read (k.close fd_write w')).0 ≡ some b
      → (v : W) × ((child v).0.sent ≡ some b)
