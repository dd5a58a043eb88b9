-- ===== src/Container/Context.antt =====
-- `nk_container_ctx_t` and `nk_cgroup_config_t` (include/nk_container.h), with the mounts left out, which
-- every caller leaves NULL.
use vibe_kata.Base.{ℕ, Bool, Option, none, some, List, [], ◌∷◌}
use vibe_kata.Base.Bytes.{CString}
use vibe_kata.Container.Namespaces.{NamespaceConfig}

pub record CgroupConfig : Type 0 where
  pub memory_limit : ℕ
  pub cpu_shares : ℕ
  pub pids_limit : ℕ

pub record Context : Type 0 where
  pub rootfs : Option CString
  pub namespaces : Option (List NamespaceConfig)
  pub namespaces_len : ℕ
  pub cgroup : Option CgroupConfig
  pub env : Option (List (Option CString))
  pub env_len : ℕ
  pub cwd : Option CString
  pub args : Option (List (Option CString))
  pub args_len : ℕ
  pub terminal : Bool

-- The strings of an array that NULL ends, as `execve` reads it.
unfoldable pub until_null : List (Option CString) → List CString
until_null [] = []
until_null (none ∷ rest) = []
until_null (some s ∷ rest) = s ∷ until_null rest
