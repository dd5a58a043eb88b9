-- ===== src/Resources/Mounts.antt =====
-- src/container/mounts.c: the root file system is made without a descriptor that stays open.
use Prim.Native.Nat.{bit_or}
use vibe_kata.Base.{
  Bool, ◌+◌, ℕ, ◌≡◌, Option, none, some, List, [], ◌∷◌, ◌++◌, Option-cases, inl, inr, arith,
}
use vibe_kata.Base.Int.{ℤ}
use vibe_kata.Base.Bytes.{CString, bytes, snprintf}
use vibe_kata.State.{path_max}
use vibe_kata.Effects.{attempt}
use vibe_kata.Effects.Keeps.{Keeps, Keeps-then, Keeps-bind, Keeps-pure, Keeps-attempt}
use vibe_kata.Files.{Errno, Files}
use vibe_kata.Container.Kernel.{Kernel}
use vibe_kata.Container.Context.{Context}
use vibe_kata.Container.Mounts.{
  DefaultMount, mount_make_private, mount_create_device, mount_setup_dev, mount_pivot_root,
  ensure_target, mount_default, mount_all, default_mounts, setup_rootfs, ok_or_fail, ok_or_exists,
  device, link, ms_rec, ms_private, ms_bind,
}
use vibe_kata.Resources.{Books, KeepsBooks}
use vibe_kata.Resources.State.{At}

module _ {W T : Type 0} {fs : Files W T} {k : Kernel W} {own : ℤ → Bool} {books : W → Books}
    (B : KeepsBooks own fs k books) (b : Books) where
  At-ok_or_fail :
      (call : W → Option Errno × W)
      → ((w : W) → books (call w).1 ≡ books w)
      → Keeps (At B b) (ok_or_fail fs k call)
  At-ok_or_fail call kept = record { at = λ w h. ground (arith, h, kept w) }

  At-ok_or_exists :
      (call : W → Option Errno × W)
      → ((w : W) → books (call w).1 ≡ books w)
      → Keeps (At B b) (ok_or_exists fs k call)
  At-ok_or_exists call kept = record { at = λ w h. ground (arith, h, kept w) }

  At-mount :
      (source : Option CString) (target : CString) (type : Option CString) (flags : ℕ)
      (data_ : Option CString)
      → Keeps (At B b) (ok_or_fail fs k (k.mount source target type flags data_))
  At-mount source target type flags data_ =
      At-ok_or_fail (k.mount source target type flags data_)
        (B.books-mount source target type flags data_)

  At-mount_make_private : (path : CString) → Keeps (At B b) (mount_make_private fs k path)
  unfolding mount_make_private
  At-mount_make_private path =
      let private = bit_or ms_rec ms_private in
      let w1 = λ (w : W). (k.mount none path none private none w).1 in
      record {
        at = λ w h. ground (
          arith,
          h,
          B.books-mount none path none private none w,
          (Keeps-then _ _ (At-mount (some path) path none (bit_or ms_bind ms_rec) none)
                (At-mount none path none private none)).at
              (w1 w),
        );
      }

  At-device : (rootfs name : CString) → Keeps (At B b) (device fs k rootfs name)
  unfolding mount_create_device
  At-device rootfs name =
      let path = snprintf path_max (rootfs ++ name) in
      Keeps-attempt (mount_create_device fs k path 0o666) (
        At-ok_or_fail (k.mknod path (8192 + 0o666) 0o600) (B.books-mknod path (8192 + 0o666) 0o600))

  At-link : (rootfs target name : CString) → Keeps (At B b) (link fs k rootfs target name)
  At-link rootfs target name =
      let path = snprintf path_max (rootfs ++ name) in
      Keeps-attempt (ok_or_exists fs k (k.symlink target path))
        (At-ok_or_exists (k.symlink target path) (B.books-symlink target path))

  At-mount_setup_dev : (rootfs : CString) → Keeps (At B b) (mount_setup_dev fs k rootfs)
  unfolding mount_setup_dev
  At-mount_setup_dev rootfs = Keeps-then _ _ (At-device rootfs (bytes "/dev/null")) (
      Keeps-then _ _ (At-device rootfs (bytes "/dev/zero")) (
        Keeps-then _ _ (At-device rootfs (bytes "/dev/full")) (
          Keeps-then _ _ (At-device rootfs (bytes "/dev/random")) (
            Keeps-then _ _ (At-device rootfs (bytes "/dev/urandom")) (
              Keeps-then _ _ (At-device rootfs (bytes "/dev/tty")) (
                Keeps-then _ _ (At-link rootfs (bytes "/proc/self/fd") (bytes "/dev/fd")) (
                  Keeps-then _ _ (At-link rootfs (bytes "/proc/self/fd/0") (bytes "/dev/stdin")) (
                    Keeps-then _ _ (At-link rootfs (bytes "/proc/self/fd/1") (bytes "/dev/stdout"))
                      (Keeps-then _ _
                        (At-link rootfs (bytes "/proc/self/fd/2") (bytes "/dev/stderr"))
                        (Keeps-pure tt))))))))))

  At-mount_pivot_root : (new_root : CString) → Keeps (At B b) (mount_pivot_root fs k new_root)
  unfolding mount_pivot_root
  At-mount_pivot_root new_root =
      let put_old = snprintf path_max (new_root ++ bytes "/.pivot_old") in
      Keeps-then _ _ (At-ok_or_exists (fs.mkdir put_old 0o700) (B.books-mkdir put_old 0o700)) (
        Keeps-then _ _ (At-mount (some new_root) new_root none (bit_or ms_bind ms_rec) none) (
          Keeps-then _ _
            (At-ok_or_fail (k.pivot_root new_root put_old) (B.books-pivot_root new_root put_old))
            (Keeps-then _ _ (At-ok_or_fail (k.chdir (bytes "/")) (B.books-chdir (bytes "/"))) (
              Keeps-then _ _
                (Keeps-attempt _ (
                  At-ok_or_fail (k.umount2 (bytes "/.pivot_old") 2)
                    (B.books-umount2 (bytes "/.pivot_old") 2)))
                (Keeps-then _ _
                  (Keeps-attempt _ (
                    At-ok_or_fail (fs.rmdir (bytes "/.pivot_old"))
                      (B.books-rmdir (bytes "/.pivot_old"))))
                  (Keeps-pure tt))))))

  At-ensure_target : (target : CString) → Keeps (At B b) (ensure_target fs k target)
  unfolding ensure_target
  At-ensure_target target = record {
    at = λ w h.
        ground
          (arith, h, (At-ok_or_fail (fs.mkdir target 0o755) (B.books-mkdir target 0o755)).at w h);
  }

  At-mount_default :
      (rootfs : CString) (m : DefaultMount) → Keeps (At B b) (mount_default fs k rootfs m)
  unfolding mount_default
  At-mount_default rootfs m =
      let target = snprintf path_max (rootfs ++ m.target) in
      Keeps-then (ensure_target fs k target)
        (ok_or_fail fs k (k.mount (some m.source) target (some m.type) m.flags m.options))
        (At-ensure_target target) (At-mount (some m.source) target (some m.type) m.flags m.options)

  At-mount_all :
      (rootfs : CString) (ms : List DefaultMount) → Keeps (At B b) (mount_all fs k rootfs ms)
  unfolding mount_all
  At-mount_all rootfs [] = Keeps-pure tt
  At-mount_all rootfs (m ∷ rest) =
      Keeps-bind (attempt (mount_default fs k rootfs m)) (λ _. mount_all fs k rootfs rest)
        (Keeps-attempt (mount_default fs k rootfs m) (At-mount_default rootfs m))
        (λ _. At-mount_all rootfs rest)

  pub At-setup_rootfs : (ctx : Context) → Keeps (At B b) (setup_rootfs fs k ctx)
  unfolding setup_rootfs
  At-setup_rootfs ctx = record {
    at = λ w h. elim (Option-cases ctx.rootfs) [
      | inl e ↦ rw e h
      | inr (rootfs, e) ↦ rw e (
          (Keeps-then _ _ (At-mount_make_private rootfs) (
              Keeps-then _ _ (At-mount_all rootfs default_mounts)
                (Keeps-then _ _ (At-mount_setup_dev rootfs) (At-mount_pivot_root rootfs)))).at
            w h)
    ];
  }
