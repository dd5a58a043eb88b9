-- ===== src/Oci/Types.antt =====
-- The structs of include/nk_oci.h. An array is the list of the elements that were allocated, beside the
-- length field that the C code keeps for it, which may be smaller. The fields `user`,
-- `additional_gids` and `resources`, which the code never sets, are left out.
use vibe_kata.Base.{ℕ, Bool, List, Option}
use vibe_kata.Base.Bytes.{CString}

-- `nk_oci_process_t`
pub record Process : Type 0 where
  pub args : Option (List (Option CString))
  pub args_len : ℕ
  pub env : Option (List (Option CString))
  pub env_len : ℕ
  pub cwd : Option CString
  pub uid : ℕ
  pub gid : ℕ
  pub no_new_privileges : Bool
  pub console_size : Option CString
  pub terminal : Bool

-- `nk_oci_root_t`
pub record Root : Type 0 where
  pub path : Option CString
  pub readonly : Bool

-- `nk_oci_mount_t`
pub record Mount : Type 0 where
  pub destination : Option CString
  pub type : Option CString
  pub source : Option CString
  pub options : Option (List (Option CString))
  pub options_len : ℕ

-- `nk_oci_namespace_t`
pub record Namespace : Type 0 where
  pub type : Option CString
  pub path : Option CString

-- `nk_oci_linux_t`
pub record Linux : Type 0 where
  pub namespaces : Option (List Namespace)
  pub namespaces_len : ℕ
  pub rootfs_propagation : Option CString

-- `nk_oci_spec_t`
pub record Spec : Type 0 where
  pub oci_version : Option CString
  pub process : Option Process
  pub root : Option Root
  pub hostname : Option CString
  pub mounts : Option (List Mount)
  pub mounts_len : ℕ
  pub linux_config : Option Linux
  pub annotations : Option (List CString)
  pub annotations_len : ℕ
