-- ===== src/Oci/Annotation.antt =====
-- `nk_oci_spec_get_annotation` (src/oci/spec.c).
use vibe_kata.Base.{Option, none, some, List, [], ◌∷◌, ◌==◌, take, if◌then◌else◌}
use vibe_kata.Base.Bytes.{CString}
use vibe_kata.Oci.Types.{Spec}

-- `strncmp(ann, key, strlen(key)) == 0 && ann[strlen(key)] == '='`, and what follows.
unfoldable pub value_of : CString → CString → Option CString
value_of [] [] = none
value_of [] (b ∷ ann) = if b == b'=' then some ann else none
value_of (k ∷ key) [] = none
value_of (k ∷ key) (b ∷ ann) = let rest = value_of key ann in if b == k then rest else none

unfoldable pub find_annotation : List CString → CString → Option CString
unfolding value_of
find_annotation [] key = none
find_annotation (ann ∷ rest) key =
    let later = find_annotation rest key in
    elim (value_of key ann) [ some v ↦ some v | none ↦ later ]

unfoldable pub get_annotation : Spec → CString → Option CString
unfolding find_annotation
get_annotation spec key = elim spec.annotations [
  | none ↦ none
  | some anns ↦ find_annotation (take spec.annotations_len anns) key
]
