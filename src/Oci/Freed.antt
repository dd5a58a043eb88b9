-- ===== src/Oci/Freed.antt =====
-- Which strings of a parsed specification `nk_oci_spec_free` frees.
use vibe_kata.Base.{
  ℕ, suc, ◌≡◌, ◌∙◌, refl, sym, ap, Option, none, some, List, [], ◌∷◌, ◌++◌, map, take-eq_self,
  length, arith, Option-cases, inl, inr,
}
use vibe_kata.Base.Bytes.{CString, bytes}
use vibe_kata.Jansson.{Jansson}
use vibe_kata.Oci.Types.{Process, Root, Mount, Namespace, Linux, Spec}
use vibe_kata.Oci.Parse.{text_member, array_member, parse_process, parse_mount, parse_mounts}
use vibe_kata.Oci.Load.{parse_spec, object_member}
use vibe_kata.Oci.Free.{
  held_text, free_each, free_array, process_free, root_free, mount_free, namespace_free, linux_free,
  annotation_free, spec_free,
}

-- The string that is there, if it is.
abbrev pub texts_of : Option CString → List CString
texts_of none = []
texts_of (some s) = s ∷ []

-- The strings of all elements that the array has.
abbrev pub texts_each {ℓ} : {A : Type ℓ} → (A → List CString) → List A → List CString
texts_each f [] = []
texts_each f (x ∷ xs) = f x ++ texts_each f xs

abbrev pub array_texts {ℓ} : {A : Type ℓ} → (A → List CString) → Option (List A) → List CString
array_texts f none = []
array_texts f (some xs) = texts_each f xs

abbrev pub process_texts : Option Process → List CString
process_texts none = []
process_texts (some proc) =
    array_texts texts_of proc.args
    ++ (array_texts texts_of proc.env ++ (texts_of proc.cwd ++ texts_of proc.console_size))

abbrev pub root_texts : Option Root → List CString
root_texts none = []
root_texts (some root) = texts_of root.path

abbrev pub mount_texts : Mount → List CString
mount_texts m =
    texts_of m.destination
    ++ (texts_of m.type ++ (texts_of m.source ++ array_texts texts_of m.options))

abbrev pub namespace_texts : Namespace → List CString
namespace_texts ns = texts_of ns.type ++ texts_of ns.path

abbrev pub linux_texts : Option Linux → List CString
linux_texts none = []
linux_texts (some linux) =
    array_texts namespace_texts linux.namespaces ++ texts_of linux.rootfs_propagation

abbrev pub annotation_texts : Option (List CString) → List CString
annotation_texts none = []
annotation_texts (some ss) = ss

-- All strings of a specification.
abbrev pub spec_texts : Spec → List CString
spec_texts spec =
    texts_of spec.oci_version
    ++ (process_texts spec.process
        ++ (root_texts spec.root
            ++ (texts_of spec.hostname
                ++ (array_texts mount_texts spec.mounts
                    ++ (linux_texts spec.linux_config ++ annotation_texts spec.annotations)))))

held_text_lem : (o : Option CString) → held_text o ≡ texts_of o
held_text_lem none = refl
held_text_lem (some s) = refl

free_each-texts_each {ℓ} :
    {A : Type ℓ} (f g : A → List CString)
    → ((x : A) → f x ≡ g x)
    → (xs : List A) → free_each f xs ≡ texts_each g xs
free_each-texts_each f g e [] = refl
free_each-texts_each f g e (x ∷ xs) = rw (e x, free_each-texts_each f g e xs) refl

length-map {ℓ κ} :
    {A : Type ℓ} {B : Type κ} (f : A → B) (xs : List A) → length (map f xs) ≡ length xs
length-map f [] = refl
length-map f (x ∷ xs) = ap (λ n. suc n) (length-map f xs)

-- The length field of the array is its length.
abbrev pub IsFull {ℓ} : {A : Type ℓ} → Option (List A) → ℕ → Type 0
IsFull none n = Unit
IsFull (some xs) n = n ≡ length xs

free_array-full {ℓ} :
    {A : Type ℓ} (f g : A → List CString)
    → ((x : A) → f x ≡ g x)
    → (o : Option (List A)) (n : ℕ) → IsFull o n
    → free_array f o n ≡ array_texts g o
free_array-full f g e none n h = refl
free_array-full f g e (some xs) n h =
    rw h (ap (λ ys. free_each f ys) (take-eq_self (length xs) xs (omega arith)))
    ∙ free_each-texts_each f g e xs

-- An array of strings.
free_array-strings :
    (o : Option (List (Option CString))) (n : ℕ)
    → IsFull o n
    → free_array held_text o n ≡ array_texts texts_of o
free_array-strings = free_array-full held_text texts_of held_text_lem

namespace_free_lem : (ns : Namespace) → namespace_free ns ≡ namespace_texts ns
namespace_free_lem ns = rw (held_text_lem ns.type, held_text_lem ns.path) refl

root_free_lem : (o : Option Root) → root_free o ≡ root_texts o
unfolding root_free
root_free_lem none = refl
root_free_lem (some root) = held_text_lem root.path

-- The length field of the namespaces is their number.
abbrev pub HasFullNamespaces : Option Linux → Type 0
HasFullNamespaces none = Unit
HasFullNamespaces (some linux) = IsFull linux.namespaces linux.namespaces_len

linux_free-full : (o : Option Linux) → HasFullNamespaces o → linux_free o ≡ linux_texts o
unfolding linux_free
linux_free-full none h = refl
linux_free-full (some linux) h =
    rw
      (
        free_array-full namespace_free namespace_texts namespace_free_lem linux.namespaces
            linux.namespaces_len h,
        held_text_lem linux.rootfs_propagation,
      )
      refl

-- The length fields of a process, and of the options of a mount, are the lengths of the arrays.
abbrev HasFullArrays : Option Process → Type 0
HasFullArrays none = Unit
HasFullArrays (some p) = IsFull p.args p.args_len × IsFull p.env p.env_len

abbrev HasFullOptions : Mount → Type 0
HasFullOptions m = IsFull m.options m.options_len

process_free-full : (o : Option Process) → HasFullArrays o → process_free o ≡ process_texts o
unfolding process_free
process_free-full none h = refl
process_free-full (some p) h =
    rw
      (
        free_array-strings p.args p.args_len h.0,
        free_array-strings p.env p.env_len h.1,
        held_text_lem p.cwd,
        held_text_lem p.console_size,
      )
      refl

mount_free-full : (m : Mount) → HasFullOptions m → mount_free m ≡ mount_texts m
unfolding mount_free
mount_free-full m h =
    rw
      (
        free_array-strings m.options m.options_len h,
        held_text_lem m.destination,
        held_text_lem m.type,
        held_text_lem m.source,
      )
      refl

module _ {J T : Type 0} (js : Jansson J T) where
  parse_process-HasFullArrays : (v : J) → HasFullArrays (parse_process js v)
  unfolding parse_process
  parse_process-HasFullArrays v = elim (Option-cases (array_member js v (bytes "args"))) [
    | inl missing ↦ rw (missing, parse_process) tt
    | inr (args, has_args) ↦ elim (Option-cases (array_member js v (bytes "env"))) [
      | inl no_env ↦
          rw (has_args, parse_process) (rw (no_env, parse_process) (sym (length-map _ args), tt))
      | inr (env, has_env) ↦
          rw (has_args, parse_process)
            (rw (has_env, parse_process) (sym (length-map _ args), sym (length-map _ env)))
    ]
  ]

  parse_mount-HasFullOptions : (v : J) → HasFullOptions (parse_mount js v)
  unfolding parse_mount
  parse_mount-HasFullOptions v = elim (Option-cases (text_member js v (bytes "destination"))) [
    | inl missing ↦ rw (missing, parse_mount) tt
    | inr (dest, has_dest) ↦ elim (Option-cases (array_member js v (bytes "options"))) [
      | inl no_options ↦ rw (has_dest, parse_mount) (rw (no_options, parse_mount) tt)
      | inr (options, has_options) ↦
          rw (has_dest, parse_mount) (rw (has_options, parse_mount) (sym (length-map _ options)))
    ]
  ]

  free_each-parse_mounts :
      (xs : List J)
      → free_each mount_free (parse_mounts js xs).0 ≡ texts_each mount_texts (parse_mounts js xs).0
  unfolding parse_mounts
  free_each-parse_mounts [] = refl
  free_each-parse_mounts (x ∷ xs) =
      rw (mount_free-full (parse_mount js x) (parse_mount-HasFullOptions x))
        (ap (λ ts. mount_texts (parse_mount js x) ++ ts) (free_each-parse_mounts xs))

  parse_spec-HasFullArrays : (root : J) → HasFullArrays (parse_spec js root).process
  unfolding parse_spec
  parse_spec-HasFullArrays root = elim (Option-cases (js.object_get root (bytes "process"))) [
    | inl missing ↦ rw (missing, HasFullArrays) tt
    | inr (v, found) ↦ rw (found, HasFullArrays) (parse_process-HasFullArrays v)
  ]

  free_array-mounts :
      (root : J)
      → IsFull (parse_spec js root).mounts (parse_spec js root).mounts_len
      → free_array mount_free (parse_spec js root).mounts (parse_spec js root).mounts_len
        ≡ array_texts mount_texts (parse_spec js root).mounts
  unfolding parse_spec
  free_array-mounts root full = elim (Option-cases (array_member js root (bytes "mounts"))) [
    | inl missing ↦ rw (missing, parse_spec) refl
    | inr (xs, found) ↦
        let read = (parse_mounts js xs).0 in
        rw (found, parse_spec)
          (rw (rw (found, parse_spec) at full)
              (ap (λ ys. free_each mount_free ys) (take-eq_self (length read) read (omega arith)))
            ∙ free_each-parse_mounts xs)
  ]

  free_each-strings : (ss : List CString) → free_each annotation_free ss ≡ ss
  free_each-strings [] = refl
  free_each-strings (s ∷ ss) = ap (λ ts. s ∷ ts) (free_each-strings ss)

  free_array-annotations :
      (root : J)
      → free_array annotation_free
          (parse_spec js root).annotations
          (parse_spec js root).annotations_len
        ≡ annotation_texts (parse_spec js root).annotations
  unfolding parse_spec
  free_array-annotations root = elim (Option-cases (object_member js root (bytes "annotations"))) [
    | inl missing ↦ rw (missing, parse_spec) refl
    | inr (ms, found) ↦
        rw (found, parse_spec)
          (ap (λ ys. free_each annotation_free ys) (take-eq_self (length _) _ (omega arith))
            ∙ free_each-strings _)
  ]

  -- `nk_oci_spec_free` frees all strings of a parsed specification, each once and in the order of
  -- the fields, where the length fields of the mounts and of the namespaces are the lengths of
  -- their arrays.
  pub spec_free-parse_spec :
      (root : J)
      → IsFull (parse_spec js root).mounts (parse_spec js root).mounts_len
      → HasFullNamespaces (parse_spec js root).linux_config
      → spec_free (parse_spec js root) ≡ spec_texts (parse_spec js root)
  unfolding spec_free
  spec_free-parse_spec root mounts namespaces =
      rw
        (
          process_free-full (parse_spec js root).process (parse_spec-HasFullArrays root),
          free_array-mounts root mounts,
          linux_free-full (parse_spec js root).linux_config namespaces,
          free_array-annotations root,
          root_free_lem (parse_spec js root).root,
          held_text_lem (parse_spec js root).oci_version,
          held_text_lem (parse_spec js root).hostname,
        )
        refl
