-- ===== src/Resources.antt =====
-- The resources that the commands of src/main.c use through the kernel: the descriptors that they open, and
-- the processes that they signal. `Audit` is a kernel that keeps books of both; the other modules show,
-- for the parts of the program, what a command leaves in the books.
pub mod State
pub mod Process
pub mod Mounts
pub mod Namespaces
pub mod Child
pub mod Commands
pub mod Main
pub mod Audit
use vibe_kata.Base.{
  ℕ, ◌≡◌, Bool, true, false, Option, none, some, List, [], ◌∷◌, ◌==◌, if◌then◌else◌,
}
use vibe_kata.Base.Int.{ℤ, le_zero}
use vibe_kata.Base.Bytes.{CString}
use vibe_kata.Files.{Files}
use vibe_kata.Container.Kernel.{Kernel, ChildRun}

-- The descriptors that are open, the newest first; those that were used or closed while they were not
-- open; and the process ids that were signalled astray: those of 0 and below, which stand for groups of
-- processes or for all of them, and those of processes that may not be sent a signal.
pub record Books : Type 0 where
  pub open_fds : List ℕ
  pub misused : List ℕ
  pub strays : List ℤ

abbrev pub remove : ℕ → List ℕ → List ℕ
remove fd [] = []
remove fd (x ∷ xs) = let rest = remove fd xs in if x == fd then xs else x ∷ rest

abbrev pub is_open : ℕ → List ℕ → Bool
is_open fd [] = false
is_open fd (x ∷ xs) = let rest = is_open fd xs in if x == fd then true else rest

abbrev pub opened : ℕ → Books → Books
opened fd b = record b { open_fds = fd ∷ b.open_fds }

abbrev pub closed : ℕ → Books → Books
closed fd b =
    if is_open fd b.open_fds
    then record b { open_fds = remove fd b.open_fds }
    else record b { misused = fd ∷ b.misused }

-- A descriptor is read, written or handed to `setns`.
abbrev pub used : ℕ → Books → Books
used fd b = if is_open fd b.open_fds then b else record b { misused = fd ∷ b.misused }

abbrev astray : ℤ → Books → Books
astray pid b = record b { strays = pid ∷ b.strays }

-- A signal, where `own` says which processes may be sent one. The signal 0 only asks for the process.
abbrev pub signalled : (ℤ → Bool) → ℤ → ℕ → Books → Books
signalled own pid sig b =
    if le_zero pid
    then astray pid b
    else if sig == 0
    then b
    else if own pid
    then b
    else astray pid b

abbrev pub opened_if : Option ℕ → Books → Books
opened_if none b = b
opened_if (some fd) b = opened fd b

abbrev pub piped : Option (ℕ × ℕ) → Books → Books
piped none b = b
piped (some (fd_read, fd_write)) b = opened fd_read (opened fd_write b)

-- `books` are the books that the calls keep. `clone` and `fork` give the child a table of descriptors of
-- its own; the calls on files by name close what they open.
pub record KeepsBooks {W T : Type 0} (own : ℤ → Bool) (fs : Files W T) (k : Kernel W)
    (books : W → Books) : Type 0 where
  pub books-mkdir : (p : CString) (mode : ℕ) (w : W) → books (fs.mkdir p mode w).1 ≡ books w
  pub books-rmdir : (p : CString) (w : W) → books (fs.rmdir p w).1 ≡ books w
  pub books-unlink : (p : CString) (w : W) → books (fs.unlink p w).1 ≡ books w
  pub books-open_write : (p : CString) (w : W) → books (fs.open_write p w).1 ≡ books w
  pub books-write_contents : (p : CString) (t : T) (w : W) → books (fs.write p t w).1 ≡ books w
  pub books-close_contents : (p : CString) (w : W) → books (fs.close p w).1 ≡ books w
  pub books-mount :
      (source : Option CString) (target : CString) (type : Option CString) (flags : ℕ)
      (data_ : Option CString) (w : W)
      → books (k.mount source target type flags data_ w).1 ≡ books w
  pub books-umount2 : (p : CString) (flags : ℕ) (w : W) → books (k.umount2 p flags w).1 ≡ books w
  pub books-pivot_root : (new old : CString) (w : W) → books (k.pivot_root new old w).1 ≡ books w
  pub books-chdir : (p : CString) (w : W) → books (k.chdir p w).1 ≡ books w
  pub books-mknod :
      (p : CString) (mode device : ℕ) (w : W) → books (k.mknod p mode device w).1 ≡ books w
  pub books-symlink : (target p : CString) (w : W) → books (k.symlink target p w).1 ≡ books w
  pub books-sethostname : (name : CString) (w : W) → books (k.sethostname name w).1 ≡ books w
  pub books-setrlimit_stack : (size : ℕ) (w : W) → books (k.setrlimit_stack size w).1 ≡ books w
  pub books-setsid : (w : W) → books (k.setsid w).1 ≡ books w
  pub books-setgid : (gid : ℕ) (w : W) → books (k.setgid gid w).1 ≡ books w
  pub books-setuid : (uid : ℕ) (w : W) → books (k.setuid uid w).1 ≡ books w
  pub books-setns : (fd type : ℕ) (w : W) → books (k.setns fd type w).1 ≡ used fd (books w)
  pub books-open_read :
      (p : CString) (w : W) → books (k.open_read p w).1 ≡ opened_if (k.open_read p w).0 (books w)
  pub books-open_fd :
      (p : CString) (w : W) → books (k.open_fd p w).1 ≡ opened_if (k.open_fd p w).0 (books w)
  pub books-write : (fd : ℕ) (s : CString) (w : W) → books (k.write fd s w).1 ≡ used fd (books w)
  pub books-close : (fd : ℕ) (w : W) → books (k.close fd w) ≡ closed fd (books w)
  pub books-execve :
      (path : Option CString) (argv envp : List CString) (w : W)
      → books (k.execve path argv envp w).1 ≡ books w
  pub books-pipe : (w : W) → books (k.pipe w).1 ≡ piped (k.pipe w).0 (books w)
  pub books-read_byte : (fd : ℕ) (w : W) → books (k.read_byte fd w).1 ≡ used fd (books w)
  pub books-clone :
      (flags : ℕ) (child : W → ChildRun × W) (w : W) → books (k.clone flags child w).1 ≡ books w
  pub books-fork_execvp :
      (path : CString) (argv : List CString) (w : W) → books (k.fork_execvp path argv w).1 ≡ books w
  pub books-write_file : (path s : CString) (w : W) → books (k.write_file path s w).1 ≡ books w
  pub books-waitpid : (pid : ℤ) (w : W) → books (k.waitpid pid w).1 ≡ books w
  pub books-kill :
      (pid : ℤ) (sig : ℕ) (w : W) → books (k.kill pid sig w).1 ≡ signalled own pid sig (books w)
  pub books-usleep : (time : ℕ) (w : W) → books (k.usleep time w) ≡ books w
