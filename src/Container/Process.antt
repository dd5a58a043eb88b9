-- ===== src/Container/Process.antt =====
-- src/container/process.c: the start of the container's process, with the pipe by which the child tells
-- the parent that it is ready. Built without libcap-ng, so that no capability is dropped; the stack of
-- the child is memory, which is assumed never to run out. What the code prints is left out.
pub mod Handshake
use Prim.Native.Nat.{bit_or}
use vibe_kata.Base.{
  ℕ, ◌*◌, Bool, true, false, Option, none, some, List, [], ◌∷◌, take, ◌==◌, is_some, if◌then◌else◌,
}
use vibe_kata.Base.Int.{ℤ}
use vibe_kata.Base.Bytes.{CString, bytes}
use vibe_kata.Effects.{M, pure, fail, attempt, ◌>>=◌, ◌>>◌}
use vibe_kata.Files.{Files}
use vibe_kata.Container.Kernel.{Kernel, ChildRun, Ending, exited, executed, WaitStatus}
use vibe_kata.Container.Namespaces.{NamespaceType, uts, NamespaceConfig, get_clone_flags}
use vibe_kata.Container.Namespaces.Join.{namespace_set_hostname}
use vibe_kata.Container.Limits.{process_drop_capabilities, process_set_rlimits}
use vibe_kata.Container.Context.{Context, until_null}
use vibe_kata.Container.Mounts.{setup_rootfs}

abbrev pub child_sync_ready : ℕ
child_sync_ready = b'1'

abbrev pub child_sync_error : ℕ
child_sync_error = b'0'

-- `SIGCHLD`
abbrev pub sigchld : ℕ
sigchld = 17

-- `container_exec_ctx_t`
pub record ExecContext : Type 0 where
  pub ctx : Context
  pub container_id : Option CString
  pub hostname : Option CString
  pub fd_read : ℕ
  pub fd_write : ℕ
  pub env : List (Option CString)

abbrev is_uts : NamespaceType → Bool
is_uts uts = true
is_uts _ = false

abbrev has_uts : List NamespaceConfig → Bool
has_uts [] = false
has_uts (ns ∷ rest) = if is_uts ns.type then true else has_uts rest

-- The namespaces that the loops over `namespaces_len` elements read.
unfoldable pub namespaces_of : Context → List NamespaceConfig
namespaces_of ctx = elim ctx.namespaces [ none ↦ [] | some nss ↦ take ctx.namespaces_len nss ]

abbrev pub or_args : Option (List (Option CString)) → List (Option CString)
or_args none = []
or_args (some args) = args

abbrev pub first : List (Option CString) → Option CString
first [] = none
first (s ∷ rest) = s

abbrev default_env : List (Option CString)
default_env =
    some (bytes "PATH=/usr/local/sbin:/usr/local/bin:/usr/sbin:/usr/bin:/sbin:/bin")
    ∷ some (bytes "TERM=xterm")
    ∷ some (bytes "HOME=/root")
    ∷ none
    ∷ []

abbrev child_env : Context → List (Option CString)
child_env ctx = elim ctx.env [
  | none ↦ default_env
  | some env ↦ if ctx.env_len == 0 then default_env else env
]

unfoldable pub clone_flags : Context → ℕ
unfolding namespaces_of
clone_flags ctx = bit_or sigchld (get_clone_flags (namespaces_of ctx))

unfoldable pub exec_context : Context → ℕ → ℕ → ExecContext
exec_context ctx fd_read fd_write = record {
  ctx = ctx;
  container_id = none;
  hostname = none;
  fd_read = fd_read;
  fd_write = fd_write;
  env = child_env ctx;
}

unfoldable pub is_runnable : Context → Bool
is_runnable ctx =
    if is_some ctx.rootfs
    then (if is_some ctx.args then (if ctx.args_len == 0 then false else true) else false)
    else false

module _ {W : Type 0} (k : Kernel W) where
  -- The host name is set if there is one and a UTS namespace is configured.
  unfoldable pub set_hostname : ExecContext → W → W
  unfolding namespaces_of namespace_set_hostname
  set_hostname e w = elim e.hostname [
    | none ↦ w
    | some name ↦ if has_uts (namespaces_of e.ctx) then (namespace_set_hostname k name w).1 else w
  ]

  unfoldable pub enter_cwd : Option CString → W → W
  enter_cwd none w = w
  enter_cwd (some cwd) w =
      let (e, w1) = k.chdir cwd w in elim e [ none ↦ w1 | some _ ↦ (k.chdir (bytes "/") w1).1 ]

  -- `execve` where there are arguments; it returns only where it fails.
  unfoldable pub run_program : ExecContext → W → Ending × W
  run_program e w =
      let args = or_args e.ctx.args in
      if is_some e.ctx.args
      then (if e.ctx.args_len == 0
          then (exited 1, w)
          else (let (replaced, w1) = k.execve (first args) (until_null args) (until_null e.env) w in
              (
                if replaced
                    then executed (first args) (until_null args) (until_null e.env)
                    else exited 1,
                w1,
              )))
      else (exited 1, w)

  -- What `nk_container_exec` does once the child runs: the pipe decides.
  unfoldable pub await_child : ℕ → ℕ → ℤ → M W ℤ
  await_child fd_read fd_write pid w =
      let (buf, w1) = k.read_byte fd_read (k.close fd_write w) in
      let w2 = k.close fd_read w1 in
      elim buf [
        | none ↦ (none, (k.waitpid pid w2).1)
        | some b ↦ if b == child_sync_ready then (some pid, w2) else (none, (k.waitpid pid w2).1)
      ]

  -- `nk_container_wait`, `nk_container_signal`
  unfoldable pub container_wait : ℤ → M W WaitStatus
  container_wait pid = k.waitpid pid

  unfoldable pub container_signal : ℤ → ℕ → M W (Unit {0})
  container_signal pid sig w =
      let (e, w1) = k.kill pid sig w in elim e [ none ↦ (some tt, w1) | some _ ↦ (none, w1) ]

module _ {W T : Type 0} (fs : Files W T) (k : Kernel W) where
  -- `container_child_fn`
  unfoldable pub container_child_fn : ExecContext → W → ChildRun × W
  unfolding set_hostname enter_cwd run_program process_drop_capabilities process_set_rlimits
  container_child_fn e w =
      let w1 = set_hostname k e (k.close e.fd_read w) in
      let (made, w2) = setup_rootfs fs k e.ctx w1 in
      elim made [
        | none ↦ (record { sent = some child_sync_error; ending = exited 1 }, k.close e.fd_write w2)
        | some _ ↦
            let w3 = enter_cwd k e.ctx.cwd w2 in
            let w4 = (process_set_rlimits k (process_drop_capabilities k w3).1).1 in
            let w5 = if e.ctx.terminal then w4 else (k.setsid w4).1 in
            let (ending, w6) = run_program k e (k.close e.fd_write w5) in
            (record { sent = some child_sync_ready; ending = ending }, w6)
      ]

  unfoldable pub clone_child : Context → ℕ × ℕ → M W ℤ
  unfolding clone_flags await_child exec_context
  clone_child ctx (fd_read, fd_write) w =
      let (r, w1) =
        k.clone (clone_flags ctx) (container_child_fn (exec_context ctx fd_read fd_write)) w in
      elim r [
        | none ↦ (none, k.close fd_write (k.close fd_read w1))
        | some pid ↦ await_child k fd_read fd_write pid w1
      ]

  -- `nk_container_exec`
  unfoldable pub container_exec : Context → M W ℤ
  unfolding clone_child is_runnable
  container_exec ctx = if is_runnable ctx then (do fds ← k.pipe; clone_child ctx fds) else fail
