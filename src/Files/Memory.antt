-- ===== src/Files/Memory.antt =====
-- A file system in memory: the paths that exist, as they are spelled, each a directory or a file.
-- It shows that the laws can hold, and runs the concrete examples.
use vibe_kata.Base.{refl, Bool, true, false, Option, none, some, [], ◌∷◌, arith, if◌then◌else◌}
use vibe_kata.Base.Bytes.{CString, str_eq, str_eq_iff, str_eq_refl}
use vibe_kata.Files.{
  Errno, enoent, eexist, eperm, other, Kind, directory, regular, Files, IsLawful, NoDanglingLinks,
}

pub data Node (T : Type 0) : Type 0 where
  dir : Node T
  -- A file, empty until it is written.
  file : Option T → Node T

abbrev pub Disk : Type 0 → Type 0
Disk T = CString → Option (Node T)

module _ {T : Type 0} where
  abbrev pub update : CString → Option (Node T) → Disk T → Disk T
  update p n d q = if str_eq p q then n else d q

  abbrev kind : Node T → Kind
  kind dir = directory
  kind (file t) = regular

  abbrev contents : Option (Node T) → Option T
  contents none = none
  contents (some dir) = none
  contents (some (file t)) = t

  mkdir_at : CString → Option (Node T) → Disk T → Option Errno × Disk T
  mkdir_at [] n d = (some enoent, d)
  mkdir_at (b ∷ p) none d = (none, update (b ∷ p) (some dir) d)
  mkdir_at (b ∷ p) (some n) d = (some eexist, d)

  rmdir_at : CString → Option (Node T) → Disk T → Option Errno × Disk T
  rmdir_at p none d = (some enoent, d)
  rmdir_at p (some dir) d = (none, update p none d)
  rmdir_at p (some (file t)) d = (some other, d)

  unlink_at : CString → Option (Node T) → Disk T → Option Errno × Disk T
  unlink_at p none d = (some enoent, d)
  unlink_at p (some dir) d = (some eperm, d)
  unlink_at p (some (file t)) d = (none, update p none d)

  open_at : CString → Option (Node T) → Disk T → Bool × Disk T
  open_at p (some dir) d = (false, d)
  open_at p _ d = (true, update p (some (file none)) d)

  unfoldable pub disk_files : Files (Disk T) T
  unfolding mkdir_at rmdir_at unlink_at open_at
  disk_files = record {
    mkdir = λ p mode d. mkdir_at p (d p) d;
    rmdir = λ p d. rmdir_at p (d p) d;
    unlink = λ p d. unlink_at p (d p) d;
    stat = λ p d. elim (d p) [ none ↦ none | some n ↦ some (kind n) ];
    read = λ p d. contents (d p);
    open_write = λ p d. open_at p (d p) d;
    write = λ p t d. (true, update p (some (file (some t))) d);
    close = λ p d. (true, d);
  }

  -- The memory keeps the laws, with paths that are spelled differently naming different files.
  pub disk_files-IsLawful : IsLawful disk_files str_eq
  unfolding disk_files
  disk_files-IsLawful = record {
    read-write = λ p t d h k l. ground (arith, str_eq_refl p);
    stat-write = λ p t d h. ground (arith, str_eq_refl p);
    read-mkdir = λ p q mode d. ground (arith, str_eq_iff p q);
    read-rmdir = λ p q d. ground (arith, str_eq_iff p q);
    stat-rmdir = λ p q d h. ground (arith, str_eq_iff p q);
    stat-unlink = λ p d h. ground (arith, str_eq_refl p);
    read_of_missing = λ p d h. ground arith;
    read-open_write = λ p q d h. ground (arith, str_eq_iff p q);
    read-write_ne = λ p q t d h. ground arith;
    read-close_ne = λ p q d h. refl;
    read-unlink = λ p q d h. ground (arith, str_eq_iff p q);
    stat-mkdir = λ p mode d h. ground (arith, str_eq_refl p);
    stat-mkdir_keeps = λ p q mode d {kd} h. ground (arith, str_eq_iff p q);
    mkdir_empty = λ mode d. refl;
  }

  -- There are no symbolic links in the memory.
  pub disk_files-NoDanglingLinks : NoDanglingLinks disk_files
  unfolding disk_files
  disk_files-NoDanglingLinks = record {
    stat-mkdir_existing = λ p mode d h. ground (arith, str_eq_refl p);
  }
