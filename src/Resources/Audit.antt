-- ===== src/Resources/Audit.antt =====
-- Any files and any kernel, with books kept beside their world: nothing is assumed of them.
use vibe_kata.Base.{Bool, refl}
use vibe_kata.Base.Int.{ℤ}
use vibe_kata.Files.{Files}
use vibe_kata.Container.Kernel.{Kernel}
use vibe_kata.Resources.{Books, KeepsBooks, opened_if, closed, used, signalled, piped}

-- A call that leaves the books alone.
abbrev aside {ℓ} : {W : Type 0} {R : Type ℓ} → (W → R × W) → W × Books → R × (W × Books)
aside call (w, b) = let (r, w') = call w in (r, (w', b))

module _ {W T : Type 0} (fs : Files W T) where
  abbrev pub audited_files : Files (W × Books) T
  audited_files = record {
    mkdir = λ p mode. aside (fs.mkdir p mode);
    rmdir = λ p. aside (fs.rmdir p);
    unlink = λ p. aside (fs.unlink p);
    stat = λ p v. fs.stat p v.0;
    read = λ p v. fs.read p v.0;
    open_write = λ p. aside (fs.open_write p);
    write = λ p t. aside (fs.write p t);
    close = λ p. aside (fs.close p);
  }

module _ {W : Type 0} (own : ℤ → Bool) (k : Kernel W) where
  abbrev pub audited : Kernel (W × Books)
  audited = record {
    mount = λ source target type flags data_. aside (k.mount source target type flags data_);
    umount2 = λ p flags. aside (k.umount2 p flags);
    pivot_root = λ new old. aside (k.pivot_root new old);
    chdir = λ p. aside (k.chdir p);
    mknod = λ p mode device. aside (k.mknod p mode device);
    symlink = λ target p. aside (k.symlink target p);
    sethostname = λ name. aside (k.sethostname name);
    setrlimit_stack = λ size. aside (k.setrlimit_stack size);
    setsid = aside k.setsid;
    setgid = λ gid. aside (k.setgid gid);
    setuid = λ uid. aside (k.setuid uid);
    open_read = λ p v. let (r, w') = k.open_read p v.0 in (r, (w', opened_if r v.1));
    open_fd = λ p v. let (r, w') = k.open_fd p v.0 in (r, (w', opened_if r v.1));
    write = λ fd s v. let (r, w') = k.write fd s v.0 in (r, (w', used fd v.1));
    close = λ fd v. (k.close fd v.0, closed fd v.1);
    setns = λ fd type v. let (r, w') = k.setns fd type v.0 in (r, (w', used fd v.1));
    execve = λ path argv envp. aside (k.execve path argv envp);
    pipe = λ v. let (r, w') = k.pipe v.0 in (r, (w', piped r v.1));
    read_byte = λ fd v. let (r, w') = k.read_byte fd v.0 in (r, (w', used fd v.1));
    clone = λ flags child v.
        aside (k.clone flags (λ w. let (run, last) = child (w, v.1) in (run, last.0))) v;
    fork_execvp = λ path argv. aside (k.fork_execvp path argv);
    write_file = λ path s. aside (k.write_file path s);
    waitpid = λ pid. aside (k.waitpid pid);
    kill = λ pid sig v. let (r, w') = k.kill pid sig v.0 in (r, (w', signalled own pid sig v.1));
    usleep = λ time v. (k.usleep time v.0, v.1);
    readable = λ path v. k.readable path v.0;
  }

pub audited-KeepsBooks :
    {W T : Type 0} (own : ℤ → Bool) (fs : Files W T) (k : Kernel W)
    → KeepsBooks own (audited_files fs) (audited own k) (λ v. v.1)
audited-KeepsBooks own fs k = record {
  books-mkdir = λ p mode v. refl;
  books-rmdir = λ p v. refl;
  books-unlink = λ p v. refl;
  books-open_write = λ p v. refl;
  books-write_contents = λ p t v. refl;
  books-close_contents = λ p v. refl;
  books-mount = λ source target type flags data_ v. refl;
  books-umount2 = λ p flags v. refl;
  books-pivot_root = λ new old v. refl;
  books-chdir = λ p v. refl;
  books-mknod = λ p mode device v. refl;
  books-symlink = λ target p v. refl;
  books-sethostname = λ name v. refl;
  books-setrlimit_stack = λ size v. refl;
  books-setsid = λ v. refl;
  books-setgid = λ gid v. refl;
  books-setuid = λ uid v. refl;
  books-setns = λ fd type v. refl;
  books-open_read = λ p v. refl;
  books-open_fd = λ p v. refl;
  books-write = λ fd s v. refl;
  books-close = λ fd v. refl;
  books-execve = λ path argv envp v. refl;
  books-pipe = λ v. refl;
  books-read_byte = λ fd v. refl;
  books-clone = λ flags child v. refl;
  books-fork_execvp = λ path argv v. refl;
  books-write_file = λ path s v. refl;
  books-waitpid = λ pid v. refl;
  books-kill = λ pid sig v. refl;
  books-usleep = λ time v. refl;
}
