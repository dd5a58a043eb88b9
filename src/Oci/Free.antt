-- ===== src/Oci/Free.antt =====
-- `nk_oci_spec_free` (src/oci/spec.c): the strings that it hands to `free`, in their order. The structs
-- and the arrays, which it frees with them, are left out.
use vibe_kata.Base.{ℕ, Option, none, some, List, [], ◌∷◌, ◌++◌, take}
use vibe_kata.Base.Bytes.{CString}
use vibe_kata.Oci.Types.{Process, Root, Mount, Namespace, Linux, Spec}

-- `free(NULL)` does nothing.
abbrev pub held_text : Option CString → List CString
held_text none = []
held_text (some s) = s ∷ []

-- What is freed of each element.
abbrev pub free_each {ℓ} : {A : Type ℓ} → (A → List CString) → List A → List CString
free_each f [] = []
free_each f (x ∷ xs) = f x ++ free_each f xs

-- A loop over an array, which goes by its length field.
abbrev pub free_array {ℓ} : {A : Type ℓ} → (A → List CString) → Option (List A) → ℕ → List CString
free_array f none n = []
free_array f (some xs) n = free_each f (take n xs)

unfoldable pub process_free : Option Process → List CString
process_free none = []
process_free (some proc) =
    free_array held_text proc.args proc.args_len
    ++ (free_array held_text proc.env proc.env_len
        ++ (held_text proc.cwd ++ held_text proc.console_size))

unfoldable pub root_free : Option Root → List CString
root_free none = []
root_free (some root) = held_text root.path

unfoldable pub mount_free : Mount → List CString
mount_free m =
    held_text m.destination
    ++ (held_text m.type ++ (held_text m.source ++ free_array held_text m.options m.options_len))

abbrev pub namespace_free : Namespace → List CString
namespace_free ns = held_text ns.type ++ held_text ns.path

unfoldable pub linux_free : Option Linux → List CString
linux_free none = []
linux_free (some linux) =
    free_array namespace_free linux.namespaces linux.namespaces_len
    ++ held_text linux.rootfs_propagation

abbrev pub annotation_free : CString → List CString
annotation_free s = s ∷ []

unfoldable pub spec_free : Spec → List CString
unfolding process_free root_free mount_free linux_free
spec_free spec =
    held_text spec.oci_version
    ++ (process_free spec.process
        ++ (root_free spec.root
            ++ (held_text spec.hostname
                ++ (free_array mount_free spec.mounts spec.mounts_len
                    ++ (linux_free spec.linux_config
                        ++ free_array annotation_free spec.annotations spec.annotations_len)))))
