-- ===== src/Lifecycle/Context.antt =====
-- The context that `nk_container_start` builds from a specification (src/main.c).
use vibe_kata.Base.{ℕ, Option, none, some, List, [], ◌∷◌, ◌++◌, take, if◌then◌else◌, true}
use vibe_kata.Base.Bytes.{CString, bytes, str_eq, snprintf}
use vibe_kata.Types.{Container}
use vibe_kata.State.{path_max}
use vibe_kata.Oci.{Process, Root, Namespace, Linux, Spec}
use vibe_kata.Container.Namespaces.{
  NamespaceType, pid, network, ipc, uts, mount, user, cgroup, NamespaceConfig,
}
use vibe_kata.Container.Context.{Context}

-- The type of a namespace by its name; any other name leaves the 0 of `calloc`, `NK_NS_PID`.
unfoldable pub namespace_type : CString → NamespaceType
namespace_type s =
    if str_eq s (bytes "pid")
    then pid
    else if str_eq s (bytes "network")
    then network
    else if str_eq s (bytes "ipc")
    then ipc
    else if str_eq s (bytes "uts")
    then uts
    else if str_eq s (bytes "mount")
    then mount
    else if str_eq s (bytes "user")
    then user
    else if str_eq s (bytes "cgroup")
    then cgroup
    else pid

-- A NULL type is read by `strcmp`: `none`.
unfoldable pub namespace_config : Namespace → Option NamespaceConfig
unfolding namespace_type
namespace_config ns = elim ns.type [
  | none ↦ none
  | some type ↦ some (record { type = namespace_type type; path = ns.path; enable = true })
]

unfoldable pub namespace_configs : List Namespace → Option (List NamespaceConfig)
unfolding namespace_config
namespace_configs [] = some []
namespace_configs (ns ∷ rest) =
    let configs = namespace_configs rest in
    elim (namespace_config ns) [
      | none ↦ none
      | some c ↦ elim configs [ none ↦ none | some cs ↦ some (c ∷ cs) ]
    ]

-- What `nk_container_start` has read before it changes anything.
pub record Prepared : Type 0 where
  pub stored : Container
  pub bundle : CString
  pub spec : Spec
  pub process : Process
  pub root : Root

abbrev text_or : Option CString → CString → CString
text_or none d = d
text_or (some s) d = s

-- The namespaces of the context, if the specification has an array of them.
unfoldable pub context_namespaces : Option Linux → Option (Option (List NamespaceConfig) × ℕ)
unfolding namespace_configs
context_namespaces none = some (none, 0)
context_namespaces (some linux) = elim linux.namespaces [
  | none ↦ some (none, 0)
  | some nss ↦ elim (namespace_configs (take linux.namespaces_len nss)) [
    | none ↦ none
    | some cs ↦ some (some cs, linux.namespaces_len)
  ]
]

-- The context that `nk_container_start` builds from the specification.
unfoldable pub context_of : Prepared → Option Context
unfolding context_namespaces
context_of p = elim (context_namespaces p.spec.linux_config) [
  | none ↦ none
  | some (nss, len) ↦ some (record {
    rootfs =
        some (snprintf path_max (p.bundle ++ (bytes "/" ++ text_or p.root.path (bytes "(null)"))));
    namespaces = nss;
    namespaces_len = len;
    cgroup = some (record { memory_limit = 0; cpu_shares = 0; pids_limit = 0 });
    env = p.process.env;
    env_len = p.process.env_len;
    cwd = some (text_or p.process.cwd (bytes "/"));
    args = p.process.args;
    args_len = p.process.args_len;
    terminal = p.process.terminal;
  })
]
