-- ===== src/Container/Cgroups.antt =====
-- src/container/cgroups.c: the cgroup of a container, by writes to the files under /sys/fs/cgroup. What
-- the code prints is left out; a failure that it only warns of is not a failure here.
pub mod Written
use vibe_kata.Base.{ℕ, ◌-◌, Bool, Option, none, some, ◌++◌, ◌==◌, is_some, if◌then◌else◌}
use vibe_kata.Base.Int.{ℤ}
use vibe_kata.Base.Bytes.{CString, bytes, snprintf}
use vibe_kata.Base.Decimal.{decimal, decimal_int}
use vibe_kata.Effects.{M, pure, attempt, ◌>>=◌, ◌>>◌}
use vibe_kata.Files.{eexist, Files}
use vibe_kata.State.{path_max}
use vibe_kata.Container.Kernel.{Kernel}
use vibe_kata.Container.Context.{Context}

abbrev pub cgroup_root : CString
cgroup_root = bytes "/sys/fs/cgroup"

abbrev pub parent_dir : CString
parent_dir = cgroup_root ++ bytes "/nano-sandbox"

abbrev pub cgroup_dir : CString → CString
cgroup_dir container_id = parent_dir ++ (bytes "/" ++ container_id)

-- `snprintf(path, sizeof(path), "%s/nano-sandbox/%s/...", CGROUP_ROOT, container_id)`
abbrev pub cgroup_file : CString → CString → CString
cgroup_file container_id name = snprintf path_max (cgroup_dir container_id ++ name)

module _ {W : Type 0} (k : Kernel W) where
  -- The write of a text to a control file, which fails where the file does not open.
  unfoldable pub write_control : CString → CString → M W (Unit {0})
  write_control path text w =
      let (fd, w1) = k.open_fd path w in
      elim fd [
        | none ↦ (none, w1)
        | some fd ↦
            let (written, w2) = k.write fd text w1 in
            (if written then some tt else none, k.close fd w2)
      ]

  -- A limit of 0 is no limit.
  abbrev set_limit : CString → CString → ℕ → M W (Unit {0})
  set_limit container_id name limit =
      if limit == 0 then pure tt else write_control (cgroup_file container_id name) (decimal limit)

  unfoldable pub cgroup_set_memory_limit : CString → ℕ → M W (Unit {0})
  unfolding write_control decimal
  cgroup_set_memory_limit container_id limit = set_limit container_id (bytes "/memory.max") limit

  unfoldable pub cgroup_set_cpu_shares : CString → ℕ → M W (Unit {0})
  unfolding write_control decimal
  cgroup_set_cpu_shares container_id shares = set_limit container_id (bytes "/cpu.weight") shares

  unfoldable pub cgroup_set_pids_limit : CString → ℕ → M W (Unit {0})
  unfolding write_control decimal
  cgroup_set_pids_limit container_id limit = set_limit container_id (bytes "/pids.max") limit

  unfoldable pub cgroup_add_process : CString → ℤ → M W (Unit {0})
  unfolding write_control decimal_int
  cgroup_add_process container_id pid =
      write_control (cgroup_file container_id (bytes "/cgroup.procs")) (decimal_int pid)

  unfoldable pub container_add_to_cgroup : Option CString → ℤ → M W (Unit {0})
  unfolding cgroup_add_process
  container_add_to_cgroup none pid = pure tt
  container_add_to_cgroup (some container_id) pid = cgroup_add_process container_id pid

module _ {W T : Type 0} (fs : Files W T) (k : Kernel W) where
  abbrev ok_or_exists : CString → M W (Unit {0})
  ok_or_exists dir w =
      let (e, w') = fs.mkdir dir 0o755 w in
      elim e [ none ↦ (some tt, w') | some eexist ↦ (some tt, w') | some _ ↦ (none, w') ]

  unfoldable pub cgroup_create : CString → M W (Unit {0})
  unfolding write_control
  cgroup_create container_id = do
    ok_or_exists parent_dir
    ok_or_exists (snprintf path_max (cgroup_dir container_id))
    _ ← attempt (
        write_control k (parent_dir ++ bytes "/cgroup.subtree_control")
          (bytes "+cpu +memory +pids +io +cpuset"))
    pure tt

  -- `nk_cgroup_delete` and `nk_cgroup_delete`, which always return 0
  unfoldable pub cgroup_delete : CString → M W (Unit {0})
  unfolding write_control
  cgroup_delete container_id = do
    let cgroup_path = parent_dir ++ snprintf (path_max - 27) (bytes "/" ++ container_id)
    _ ←
        attempt
          (write_control k (snprintf path_max (cgroup_path ++ bytes "/cgroup.procs")) (bytes "0"))
    λ w. (some tt, (fs.rmdir cgroup_path w).1)

  abbrev pub cgroup_cleanup : Option CString → M W (Unit {0})
  cgroup_cleanup none = pure tt
  cgroup_cleanup (some container_id) = cgroup_delete container_id

  -- `nk_cgroup_is_v2`
  unfoldable pub cgroup_is_v2 : W → Bool
  cgroup_is_v2 w = is_some (fs.stat (cgroup_root ++ bytes "/cgroup.controllers") w)

  -- `nk_container_setup_cgroups`
  unfoldable pub setup_cgroups : Context → CString → M W (Unit {0})
  unfolding cgroup_is_v2 cgroup_create cgroup_set_memory_limit cgroup_set_cpu_shares
      cgroup_set_pids_limit
  setup_cgroups ctx container_id w = elim ctx.cgroup [
    | none ↦ (some tt, w)
    | some cfg ↦
        if cgroup_is_v2 w
        then (do
          cgroup_create container_id
          _ ← attempt (cgroup_set_memory_limit k container_id cfg.memory_limit)
          _ ← attempt (cgroup_set_cpu_shares k container_id cfg.cpu_shares)
          _ ← attempt (cgroup_set_pids_limit k container_id cfg.pids_limit)
          pure tt)
            w
        else (some tt, w)
  ]
