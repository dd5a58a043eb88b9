-- ===== src/Container/Mounts.antt =====
-- src/container/mounts.c: the root file system of a container. What the code prints is left out; a
-- failure that it only warns of is not a failure here.
pub mod Custom
pub mod Pivot
use Prim.Native.Nat.{bit_or}
use vibe_kata.Base.{ℕ, ◌+◌, Option, none, some, List, [], ◌∷◌, ◌++◌, ◌==◌, if◌then◌else◌}
use vibe_kata.Base.Bytes.{CString, bytes, snprintf, str_eq}
use vibe_kata.Effects.{M, pure, fail, attempt, ◌>>=◌, ◌>>◌}
use vibe_kata.Files.{Errno, eexist, einval, Files}
use vibe_kata.State.{path_max}
use vibe_kata.Container.Kernel.{Kernel}
use vibe_kata.Container.Context.{Context}

-- The MS_* constants of <sys/mount.h>.
abbrev pub ms_rdonly : ℕ
ms_rdonly = 1

abbrev pub ms_nosuid : ℕ
ms_nosuid = 2

abbrev pub ms_nodev : ℕ
ms_nodev = 4

abbrev pub ms_noexec : ℕ
ms_noexec = 8

abbrev pub ms_remount : ℕ
ms_remount = 32

abbrev pub ms_bind : ℕ
ms_bind = 4096

abbrev pub ms_rec : ℕ
ms_rec = 16384

abbrev pub ms_private : ℕ
ms_private = 262144

abbrev pub ms_strictatime : ℕ
ms_strictatime = 16777216

pub record DefaultMount : Type 0 where
  pub source : CString
  pub target : CString
  pub type : CString
  pub flags : ℕ
  pub options : Option CString

unfoldable pub default_mounts : List DefaultMount
default_mounts =
    record {
      source = bytes "proc";
      target = bytes "/proc";
      type = bytes "proc";
      flags = 0;
      options = none;
    }
    ∷ record {
      source = bytes "sysfs";
      target = bytes "/sys";
      type = bytes "sysfs";
      flags = 0;
      options = none;
    }
    ∷ record {
      source = bytes "tmpfs";
      target = bytes "/dev";
      type = bytes "tmpfs";
      flags = bit_or ms_nosuid ms_strictatime;
      options = some (bytes "mode=755");
    }
    ∷ record {
      source = bytes "devpts";
      target = bytes "/dev/pts";
      type = bytes "devpts";
      flags = bit_or ms_nosuid ms_noexec;
      options = none;
    }
    ∷ record {
      source = bytes "tmpfs";
      target = bytes "/dev/shm";
      type = bytes "tmpfs";
      flags = bit_or ms_nosuid ms_nodev;
      options = none;
    }
    ∷ record {
      source = bytes "tmpfs";
      target = bytes "/dev/mqueue";
      type = bytes "tmpfs";
      flags = bit_or ms_nosuid ms_nodev;
      options = none;
    }
    ∷ []

module _ {W T : Type 0} (fs : Files W T) (k : Kernel W) where
  -- A call whose errno is not looked at.
  abbrev pub ok_or_fail : (W → Option Errno × W) → M W (Unit {0})
  ok_or_fail call w = let (e, w') = call w in elim e [ none ↦ (some tt, w') | some _ ↦ (none, w') ]

  -- A failure with EEXIST counts as done.
  abbrev pub ok_or_exists : (W → Option Errno × W) → M W (Unit {0})
  ok_or_exists call w =
      let (e, w') = call w in
      elim e [ none ↦ (some tt, w') | some eexist ↦ (some tt, w') | some _ ↦ (none, w') ]

  unfoldable pub mount_make_private : CString → M W (Unit {0})
  mount_make_private path w =
      let (e, w1) = k.mount none path none (bit_or ms_rec ms_private) none w in
      elim e [
        | none ↦ (some tt, w1)
        | some einval ↦
            (do
              ok_or_fail (k.mount (some path) path none (bit_or ms_bind ms_rec) none)
              ok_or_fail (k.mount none path none (bit_or ms_rec ms_private) none))
              w1
        | some _ ↦ (none, w1)
      ]

  -- `nk_mount_bind`
  unfoldable pub mount_bind : CString → CString → ℕ → M W (Unit {0})
  mount_bind source target flags = do
    ok_or_fail (k.mount (some source) target none (bit_or ms_bind ms_rec) none)
    let remount = bit_or (bit_or ms_bind ms_remount) flags
    if flags == 0 then pure tt else ok_or_fail (k.mount (some source) target none remount none)

  unfoldable pub mount_create_device : CString → ℕ → M W (Unit {0})
  mount_create_device path mode = ok_or_fail (k.mknod path (8192 + mode) 0o600)

  abbrev pub device : CString → CString → M W (Option (Unit {0}))
  device rootfs name = attempt (mount_create_device (snprintf path_max (rootfs ++ name)) 0o666)

  abbrev pub link : CString → CString → CString → M W (Option (Unit {0}))
  link rootfs target name =
      attempt (ok_or_exists (k.symlink target (snprintf path_max (rootfs ++ name))))

  -- `nk_mount_setup_dev`
  unfoldable pub mount_setup_dev : CString → M W (Unit {0})
  unfolding mount_create_device
  mount_setup_dev rootfs = do
    _ ← device rootfs (bytes "/dev/null")
    _ ← device rootfs (bytes "/dev/zero")
    _ ← device rootfs (bytes "/dev/full")
    _ ← device rootfs (bytes "/dev/random")
    _ ← device rootfs (bytes "/dev/urandom")
    _ ← device rootfs (bytes "/dev/tty")
    _ ← link rootfs (bytes "/proc/self/fd") (bytes "/dev/fd")
    _ ← link rootfs (bytes "/proc/self/fd/0") (bytes "/dev/stdin")
    _ ← link rootfs (bytes "/proc/self/fd/1") (bytes "/dev/stdout")
    _ ← link rootfs (bytes "/proc/self/fd/2") (bytes "/dev/stderr")
    pure tt

  -- `nk_mount_pivot_root`
  unfoldable pub mount_pivot_root : CString → M W (Unit {0})
  mount_pivot_root new_root = do
    let put_old = snprintf path_max (new_root ++ bytes "/.pivot_old")
    ok_or_exists (fs.mkdir put_old 0o700)
    ok_or_fail (k.mount (some new_root) new_root none (bit_or ms_bind ms_rec) none)
    ok_or_fail (k.pivot_root new_root put_old)
    ok_or_fail (k.chdir (bytes "/"))
    _ ← attempt (ok_or_fail (k.umount2 (bytes "/.pivot_old") 2))
    _ ← attempt (ok_or_fail (fs.rmdir (bytes "/.pivot_old")))
    pure tt

  -- The target of a mount is there, or is made.
  unfoldable pub ensure_target : CString → M W (Unit {0})
  ensure_target target w = elim (fs.stat target w) [
    | some _ ↦ (some tt, w)
    | none ↦ ok_or_fail (fs.mkdir target 0o755) w
  ]

  -- A round of the loop over the default mounts.
  unfoldable pub mount_default : CString → DefaultMount → M W (Unit {0})
  unfolding ensure_target
  mount_default rootfs m = do
    let target = snprintf path_max (rootfs ++ m.target)
    ensure_target target
    ok_or_fail (k.mount (some m.source) target (some m.type) m.flags m.options)

  unfoldable pub mount_all : CString → List DefaultMount → M W (Unit {0})
  unfolding mount_default
  mount_all rootfs [] = pure tt
  mount_all rootfs (m ∷ rest) = do _ ← attempt (mount_default rootfs m); mount_all rootfs rest

  -- `nk_container_setup_rootfs`
  unfoldable pub setup_rootfs : Context → M W (Unit {0})
  unfolding mount_make_private mount_all default_mounts mount_setup_dev mount_pivot_root
  setup_rootfs ctx = elim ctx.rootfs [
    | none ↦ fail
    | some rootfs ↦ do
      mount_make_private rootfs
      mount_all rootfs default_mounts
      mount_setup_dev rootfs
      mount_pivot_root rootfs
  ]
