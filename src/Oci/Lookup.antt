-- ===== src/Oci/Lookup.antt =====
-- The annotations of a specification as a dictionary.
use vibe_kata.Base.{
  ◌≡◌, ◌≢◌, refl, Option, none, some, List, [], ◌∷◌, ◌++◌, arith, length, All, take-eq_self,
  Option-cases, inl, inr, if◌then◌else◌,
}
use vibe_kata.Base.Bytes.{CString, bytes, str_eq}
use vibe_kata.Jansson.{Jansson}
use vibe_kata.Oci.Parse.{parse_annotations}
use vibe_kata.Oci.Load.{parse_spec, object_member}
use vibe_kata.Oci.Annotation.{value_of, find_annotation, get_annotation}

-- A key with no `=` in it.
abbrev pub IsPlain : CString → Type 0
IsPlain = All (λ b. b ≢ b'=')

value_of_annotation :
    (key k v : CString)
    → IsPlain key
    → IsPlain k
    → value_of key (k ++ (b'=' ∷ v)) ≡ (if str_eq k key then some v else none)
unfolding value_of str_eq
value_of_annotation [] [] v p q = refl
value_of_annotation [] (b ∷ k) v p q = ground arith
value_of_annotation (a ∷ key) [] v p q = ground arith
value_of_annotation (a ∷ key) (b ∷ k) v p q = ground (arith, value_of_annotation key k v p.1 q.1)

module _ {J T : Type 0} (js : Jansson J T) where
  -- The value of the first member that has this key and is a string.
  abbrev pub lookup_text : CString → List (CString × J) → Option CString
  lookup_text key [] = none
  lookup_text key ((k, v) ∷ rest) =
      let later = lookup_text key rest in
      elim (js.string_value v) [ none ↦ later | some s ↦ if str_eq k key then some s else later ]

  abbrev pub PlainKeys : List (CString × J) → Type 0
  PlainKeys = All (λ (k, v). IsPlain k)

  find_annotation-parse_annotations :
      (key : CString) (ms : List (CString × J))
      → IsPlain key
      → PlainKeys ms
      → find_annotation (parse_annotations js ms) key ≡ lookup_text key ms
  unfolding find_annotation parse_annotations
  find_annotation-parse_annotations key [] p q = refl
  find_annotation-parse_annotations key ((k, v) ∷ ms) p q =
      elim (Option-cases (js.string_value v)) [
        | inl e ↦ ground (arith, e, find_annotation-parse_annotations key ms p q.1)
        | inr (s, e) ↦ ground (
          arith,
          e,
          value_of_annotation key k s p q.0,
          find_annotation-parse_annotations key ms p q.1,
        )
      ]

  -- Where no key holds a `=`, `nk_oci_spec_get_annotation` gives for a key the value of the first
  -- string member of `annotations` with that key, and NULL where there is none.
  pub get_annotation-parse_spec :
      (config : J) (key : CString) (ms : List (CString × J))
      → object_member js config (bytes "annotations") ≡ some ms
      → IsPlain key
      → PlainKeys ms
      → get_annotation (parse_spec js config) key ≡ lookup_text key ms
  unfolding get_annotation parse_spec
  get_annotation-parse_spec config key ms e p q = ground (
    arith,
    e,
    take-eq_self (length (parse_annotations js ms)) (parse_annotations js ms) (omega arith),
    find_annotation-parse_annotations key ms p q,
  )

-- A key that is the part of another before its `=` finds the other's annotation.
value_of_longer_key :
    (k rest v : CString)
    → value_of k ((k ++ (b'=' ∷ rest)) ++ (b'=' ∷ v)) ≡ some (rest ++ (b'=' ∷ v))
unfolding value_of
value_of_longer_key [] rest v = refl
value_of_longer_key (b ∷ k) rest v = ground (arith, value_of_longer_key k rest v)
