-- ===== src/Lifecycle/Summary.antt =====
-- src/main.c: the messages of `log_oci_start_summary`, in their order, with their levels.
use vibe_kata.Base.{
  ℕ, suc, ◌+◌, ◌-◌, Bool, true, false, Option, none, some, List, [], ◌∷◌, ◌++◌, map, take, length,
  replicate, ◌==◌, ltb, leb, if◌then◌else◌,
}
use vibe_kata.Base.Bytes.{CString, bytes, snprintf}
use vibe_kata.Base.Decimal.{decimal}
use vibe_kata.Types.{Container, ExecutionMode, container, vm}
use vibe_kata.Log.{LogLevel, debug, info, warn}
use vibe_kata.Oci.{Process, Root, Mount, Namespace, Spec}

abbrev pub Message : Type 0
Message = LogLevel × CString

unfoldable pub safe_str : Option CString → CString
safe_str none = bytes "(none)"
safe_str (some []) = bytes "(none)"
safe_str (some (b ∷ s)) = b ∷ s

unfoldable pub bool_str : Bool → CString
bool_str true = bytes "true"
bool_str false = bytes "false"

abbrev pub or_empty : Option CString → CString
or_empty none = []
or_empty (some s) = s

-- The strings that the loop over the arguments reads.
abbrev pub args_read : Option (List (Option CString)) → ℕ → List CString
args_read none n = replicate n []
args_read (some args) n = map or_empty (take n args)

abbrev pub with_space : Bool → CString → CString
with_space first arg = (if first then [] else bytes " ") ++ arg

-- The loop that fills the buffer of 512 bytes. It has written `cmd`, and writes on at `off`; the flag
-- says that the argument is the first.
unfoldable pub fill_command : Bool → ℕ → CString → List CString → CString
fill_command first off cmd [] = cmd
fill_command first off cmd (arg ∷ rest) =
    let text = with_space first arg in
    let written = take off cmd ++ snprintf (512 - off) text in
    let n = length text in
    let filled = fill_command false (off + n) written rest in
    if ltb off 511
    then (if n == 0 then cmd else if leb (512 - off) n then written else filled)
    else cmd

unfoldable pub command_text : Process → CString
unfolding fill_command
command_text p = fill_command true 0 [] (args_read p.args p.args_len)

abbrev or_marked : CString → CString
or_marked [] = bytes "(empty)"
or_marked (b ∷ s) = b ∷ s

abbrev listed : Option (List (Option CString)) → ℕ → List (Option CString)
listed none n = []
listed (some xs) n = take n xs

-- `%s[%zu]` and what is said of each element, from an index on.
abbrev numbered {ℓ} : {A : Type ℓ} → LogLevel → CString → (A → CString) → ℕ → List A → List Message
numbered level name text i [] = []
numbered level name text i (x ∷ rest) =
    (level, name ++ (bytes "[" ++ (decimal i ++ (bytes "]" ++ text x))))
    ∷ numbered level name text (suc i) rest

unfoldable pub process_messages : Option Process → List Message
unfolding command_text safe_str bool_str decimal
process_messages none = (warn, bytes "Process section missing from OCI spec") ∷ []
process_messages (some p) =
    (info, bytes "Process: command=" ++ or_marked (command_text p))
    ∷ (
      info,
      bytes "Process cfg: cwd="
          ++ (safe_str p.cwd
              ++ (bytes " uid="
                  ++ (decimal p.uid
                      ++ (bytes " gid="
                          ++ (decimal p.gid
                              ++ (bytes " terminal="
                                  ++ (bool_str p.terminal
                                      ++ (bytes " env="
                                          ++ (decimal p.env_len
                                              ++ (bytes " noNewPrivileges="
                                                  ++ bool_str p.no_new_privileges)))))))))),
    )
    ∷ numbered debug (bytes "Process env") (λ e. bytes "=" ++ safe_str e) 0
        (listed p.env (if ltb p.env_len 3 then p.env_len else 3))

abbrev namespace_text : Namespace → CString
namespace_text ns = bytes ": type=" ++ (safe_str ns.type ++ (bytes " path=" ++ safe_str ns.path))

abbrev mount_text : Mount → CString
mount_text m =
    bytes ": src="
    ++ (safe_str m.source
        ++ (bytes " dst=" ++ (safe_str m.destination ++ (bytes " type=" ++ safe_str m.type))))

abbrev elements {ℓ} : {A : Type ℓ} → Option (List A) → ℕ → List A
elements none n = []
elements (some xs) n = take n xs

unfoldable pub linux_messages : Spec → List Message
unfolding safe_str decimal
linux_messages spec = elim spec.linux_config [
  | none ↦ (warn, bytes "Linux section missing from OCI spec") ∷ []
  | some linux ↦
      (
        info,
        bytes "Linux cfg: namespaces="
            ++ (decimal linux.namespaces_len
                ++ (bytes " rootfsPropagation="
                    ++ (safe_str linux.rootfs_propagation
                        ++ (bytes " mounts="
                            ++ (decimal spec.mounts_len
                                ++ (bytes " annotations=" ++ decimal spec.annotations_len)))))),
      )
      ∷ numbered info (bytes "Namespace") namespace_text 0
          (elements linux.namespaces linux.namespaces_len)
]

abbrev root_text : Option Root → CString
root_text none = bytes "Root: path=(missing) readonly=(missing)"
root_text (some root) =
    bytes "Root: path=" ++ (safe_str root.path ++ (bytes " readonly=" ++ bool_str root.readonly))

abbrev mode_text : ExecutionMode → CString
mode_text vm = bytes "vm"
mode_text container = bytes "container"

-- `log_oci_start_summary`, of a container and a specification that are not NULL
unfoldable pub start_summary : Container → Spec → List Message
unfolding safe_str bool_str process_messages linux_messages decimal
start_summary c spec =
    (info, bytes "[3] Parsed OCI spec for startup")
    ∷ (
      info,
      bytes "OCI summary: container="
          ++ (safe_str c.id
              ++ (bytes " mode="
                  ++ (mode_text c.mode
                      ++ (bytes " bundle="
                          ++ (safe_str c.bundle_path
                              ++ (bytes " ociVersion=" ++ safe_str spec.oci_version)))))),
    )
    ∷ (info, root_text spec.root)
    ∷ (process_messages spec.process
        ++ ((info, bytes "Hostname: " ++ safe_str spec.hostname)
            ∷ (linux_messages spec
                ++ numbered debug (bytes "Mount") mount_text 0
                    (elements spec.mounts spec.mounts_len))))
