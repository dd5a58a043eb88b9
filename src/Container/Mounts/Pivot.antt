-- ===== src/Container/Mounts/Pivot.antt =====
-- What a success of `nk_container_setup_rootfs` says.
use Prim.Native.Nat.{bit_or}
use vibe_kata.Base.{◌≡◌, none, some, ◌++◌}
use vibe_kata.Base.Bytes.{CString, bytes, snprintf}
use vibe_kata.Effects.{M, ◌>>◌}
use vibe_kata.Files.{Files}
use vibe_kata.State.{path_max}
use vibe_kata.Container.Kernel.{Kernel}
use vibe_kata.Container.Context.{Context}
use vibe_kata.Container.Mounts.{
  default_mounts, mount_make_private, mount_all, mount_setup_dev, mount_pivot_root, ms_bind, ms_rec,
}

abbrev pub put_old : CString → CString
put_old rootfs = snprintf path_max (rootfs ++ bytes "/.pivot_old")

module _ {W T : Type 0} (fs : Files W T) (k : Kernel W) where
  -- From one state to the other, the root is bound to itself, `pivot_root` moves the process to it, with
  -- the old root put at `/.pivot_old` below it, `chdir` goes to the new root, and the old root is
  -- unmounted and its directory removed, whatever comes of that.
  abbrev pub IsRooted : CString → W → W → Type 0
  IsRooted rootfs w w' =
      let w1 = (fs.mkdir (put_old rootfs) 0o700 w).1 in
      let w2 = (k.mount (some rootfs) rootfs none (bit_or ms_bind ms_rec) none w1).1 in
      let (moved, w3) = k.pivot_root rootfs (put_old rootfs) w2 in
      let (entered, w4) = k.chdir (bytes "/") w3 in
      (moved ≡ none)
      × (entered ≡ none)
      × (w' ≡ (fs.rmdir (bytes "/.pivot_old") (k.umount2 (bytes "/.pivot_old") 2 w4).1).1)

  -- The steps in their order.
  abbrev setup_at : CString → M W (Unit {0})
  setup_at rootfs = do
    mount_make_private fs k rootfs
    mount_all fs k rootfs default_mounts
    mount_setup_dev fs k rootfs
    mount_pivot_root fs k rootfs

  -- The state in which `nk_mount_pivot_root` is called.
  abbrev pub mounted : CString → W → W
  mounted rootfs w =
      (mount_setup_dev fs k rootfs
        (mount_all fs k rootfs default_mounts (mount_make_private fs k rootfs w).1).1).1
