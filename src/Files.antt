-- ===== src/Files.antt =====
-- The file system, which the program reaches through system calls and <stdio.h>: an interface over a
-- world `W` of files, whose contents `T` the program writes and reads through jansson alone.
pub mod Memory
use vibe_kata.Base.{ℕ, ◌≡◌, ◌≢◌, ◌⊎◌, Bool, true, false, Option, none, some, []}
use vibe_kata.Base.Bytes.{CString}

-- The values of `errno` that the program tells apart.
pub data Errno : Type 0 where
  enoent eexist einval eperm other : Errno

-- `st.st_mode`, as `S_ISDIR` and `S_ISREG` see it.
pub data Kind : Type 0 where
  directory regular special : Kind

pub record Files (W T : Type 0) : Type 0 where
  -- A call that may fail returns its errno, if it does.
  pub mkdir : CString → ℕ → W → Option Errno × W
  pub rmdir : CString → W → Option Errno × W
  pub unlink : CString → W → Option Errno × W
  -- `stat`, `none` where it fails
  pub stat : CString → W → Option Kind
  -- The contents of a file that `fopen(path, "r")` opens.
  pub read : CString → W → Option T
  -- `fopen(path, "w")`: whether it opens the file, which it creates or truncates.
  pub open_write : CString → W → Bool × W
  -- `json_dumpf` of the contents to the file just opened: whether it succeeds. What it writes may stay
  -- in the buffer.
  pub write : CString → T → W → Bool × W
  -- `fclose` of that file: whether what is still buffered was written.
  pub close : CString → W → Bool × W

-- What POSIX says of these calls. `same p q ≡ false` says that `p` and `q` name different files,
-- through whatever links and dots. The files that the program writes are regular ones: what is written
-- to a device need not be read again.
pub record IsLawful {W T : Type 0} (fs : Files W T) (same : CString → CString → Bool) : Type 0 where
  pub read-write :
      (p : CString) (t : T) (w : W)
      → (fs.open_write p w).0 ≡ true
      → (fs.write p t (fs.open_write p w).1).0 ≡ true
      → (fs.close p (fs.write p t (fs.open_write p w).1).1).0 ≡ true
      → fs.read p (fs.close p (fs.write p t (fs.open_write p w).1).1).1 ≡ some t
  pub stat-write :
      (p : CString) (t : T) (w : W)
      → (fs.open_write p w).0 ≡ true
      → fs.stat p (fs.close p (fs.write p t (fs.open_write p w).1).1).1 ≡ some regular
  -- Directories hold no contents, and a directory with an entry is not removed.
  pub read-mkdir :
      (p q : CString) (mode : ℕ) (w : W) → fs.read q (fs.mkdir p mode w).1 ≡ fs.read q w
  pub read-rmdir : (p q : CString) (w : W) → fs.read q (fs.rmdir p w).1 ≡ fs.read q w
  pub stat-rmdir : (p q : CString) (w : W) → fs.stat q w ≡ none → fs.stat q (fs.rmdir p w).1 ≡ none
  -- A file that was removed, or that `ENOENT` says is not there, is not there.
  pub stat-unlink :
      (p : CString) (w : W)
      → ((fs.unlink p w).0 ≡ none) ⊎ ((fs.unlink p w).0 ≡ some enoent)
      → fs.stat p (fs.unlink p w).1 ≡ none
  pub read_of_missing : (p : CString) (w : W) → fs.stat p w ≡ none → fs.read p w ≡ none
  -- Other files keep their contents.
  pub read-open_write :
      (p q : CString) (w : W) → same p q ≡ false → fs.read q (fs.open_write p w).1 ≡ fs.read q w
  pub read-write_ne :
      (p q : CString) (t : T) (w : W)
      → same p q ≡ false
      → fs.read q (fs.write p t w).1 ≡ fs.read q w
  pub read-close_ne :
      (p q : CString) (w : W) → same p q ≡ false → fs.read q (fs.close p w).1 ≡ fs.read q w
  pub read-unlink :
      (p q : CString) (w : W) → same p q ≡ false → fs.read q (fs.unlink p w).1 ≡ fs.read q w
  -- `mkdir` leaves a directory, and removes nothing.
  pub stat-mkdir :
      (p : CString) (mode : ℕ) (w : W)
      → (fs.mkdir p mode w).0 ≡ none
      → fs.stat p (fs.mkdir p mode w).1 ≢ none
  pub stat-mkdir_keeps :
      (p q : CString) (mode : ℕ) (w : W) {kd : Kind}
      → fs.stat q w ≡ some kd
      → fs.stat q (fs.mkdir p mode w).1 ≡ some kd
  -- The empty path names nothing.
  pub mkdir_empty : (mode : ℕ) (w : W) → (fs.mkdir [] mode w).0 ≡ some enoent

-- What `mkdir` finds at a path already, with EEXIST, is there for `stat` too: it is no symbolic link
-- to a file that is missing.
pub record NoDanglingLinks {W T : Type 0} (fs : Files W T) : Type 0 where
  pub stat-mkdir_existing :
      (p : CString) (mode : ℕ) (w : W)
      → (fs.mkdir p mode w).0 ≡ some eexist
      → fs.stat p (fs.mkdir p mode w).1 ≢ none
