-- ===== src/Container/Namespaces.antt =====
-- src/container/namespaces.c: the flags of `clone` for the namespaces of a configuration.
pub mod Flags
pub mod Join
pub mod Joined
use Prim.Native.Nat.{bit_or}
use vibe_kata.Base.{
  ℕ, Bool, true, false, Option, none, some, List, [], ◌∷◌, ◌++◌, not, is_some, if◌then◌else◌,
}
use vibe_kata.Base.Bytes.{CString, bytes}
use vibe_kata.Base.Bits.{has_flag}

-- `nk_namespace_type_t`
pub data NamespaceType : Type 0 where
  pid network ipc uts mount user cgroup : NamespaceType

-- `nk_namespace_config_t`
pub record NamespaceConfig : Type 0 where
  pub type : NamespaceType
  pub path : Option CString
  pub enable : Bool

-- `ns_map`, with the CLONE_* constants of <sched.h>
unfoldable pub ns_map : NamespaceType → ℕ
ns_map pid = 0x20000000
ns_map network = 0x40000000
ns_map ipc = 0x08000000
ns_map uts = 0x04000000
ns_map mount = 0x00020000
ns_map user = 0x10000000
ns_map cgroup = 0x02000000

-- `namespaces[i].enable && !namespaces[i].path`
abbrev pub is_new : NamespaceConfig → Bool
is_new ns = if ns.enable then not (is_some ns.path) else false

-- The loop of `nk_namespace_get_clone_flags`, over the first `len` elements.
unfoldable pub add_clone_flags : ℕ → List NamespaceConfig → ℕ
unfolding ns_map
add_clone_flags flags [] = flags
add_clone_flags flags (ns ∷ rest) =
    add_clone_flags (if is_new ns then bit_or flags (ns_map ns.type) else flags) rest

unfoldable pub get_clone_flags : List NamespaceConfig → ℕ
unfolding add_clone_flags
get_clone_flags = add_clone_flags 0

-- `if (flags & mask) strcat(buf, name)`
unfoldable pub append_if : ℕ → ℕ → CString → CString → CString
append_if flags mask name buf = if has_flag flags mask then buf ++ name else buf

-- `nk_namespace_flags_to_string`
unfoldable pub flags_to_string : ℕ → CString
unfolding has_flag ns_map
flags_to_string flags = append_if flags (ns_map cgroup) (bytes "CGROUP ") (
    append_if flags (ns_map user) (bytes "USER ") (
      append_if flags (ns_map mount) (bytes "MNT ") (
        append_if flags (ns_map uts) (bytes "UTS ") (
          append_if flags (ns_map ipc) (bytes "IPC ") (
            append_if flags (ns_map network) (bytes "NET ")
              (append_if flags (ns_map pid) (bytes "PID ") []))))))
