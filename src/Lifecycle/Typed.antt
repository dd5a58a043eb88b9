-- ===== src/Lifecycle/Typed.antt =====
-- Which specifications `nk_container_start` (src/main.c) can make a context from.
use vibe_kata.Base.{
  ℕ, zero, suc, ◌≡◌, refl, sym, ◌∙◌, Bool, true, some, List, [], ◌∷◌, All, take, is_some,
  Option-cases, inl, inr, ◌⊎◌, arith, Bool-cases,
}
use vibe_kata.Base.Bytes.{bytes}
use vibe_kata.Jansson.{Jansson}
use vibe_kata.Oci.{Spec, array_member, parse_namespaces, parse_linux, text_member, parse_spec}
use vibe_kata.Oci.Arrays.{type-parse_namespace, IsTyped, IsUntyped}
use vibe_kata.Lifecycle.Context.{namespace_configs, context_namespaces, Prepared, context_of}

module _ {J T : Type 0} (js : Jansson J T) where
  -- The elements with a string `type` come before the others.
  abbrev pub TypedFirst : List J → Type 0
  TypedFirst [] = Unit
  TypedFirst (ns ∷ rest) = (IsTyped js ns × TypedFirst rest) ⊎ All (IsUntyped js) (ns ∷ rest)

  untyped_len : (xs : List J) → All (IsUntyped js) xs → (parse_namespaces js xs).1 ≡ 0
  unfolding parse_namespaces
  untyped_len [] h = refl
  untyped_len (ns ∷ rest) h = ground (arith, type-parse_namespace js ns, untyped_len rest h.1)

  IsUntyped-of_len : (xs : List J) → (parse_namespaces js xs).1 ≡ 0 → All (IsUntyped js) xs
  unfolding parse_namespaces
  IsUntyped-of_len [] h = tt
  IsUntyped-of_len (ns ∷ rest) h = (
    ground (arith, type-parse_namespace js ns),
    IsUntyped-of_len rest (ground (arith, type-parse_namespace js ns)),
  )

  -- The namespaces that `nk_container_start` goes over all have a type.
  abbrev IsReadable : List J → Type 0
  IsReadable xs =
      is_some (namespace_configs (take (parse_namespaces js xs).1 (parse_namespaces js xs).0))
      ≡ true

  IsReadable-of : (xs : List J) → TypedFirst xs → IsReadable xs
  unfolding namespace_configs parse_namespaces
  IsReadable-of [] h = refl
  IsReadable-of (ns ∷ rest) (inl (typed, first)) =
      ground (arith, type-parse_namespace js ns, typed, IsReadable-of rest first)
  IsReadable-of (ns ∷ rest) (inr none_typed) = rw (untyped_len (ns ∷ rest) none_typed) refl

  untyped_rest :
      (ns : J) (rest : List J) (n : ℕ)
      → IsUntyped js ns
      → IsReadable (ns ∷ rest)
      → (parse_namespaces js rest).1 ≡ n
      → n ≡ 0
  unfolding namespace_configs parse_namespaces
  untyped_rest ns rest zero untyped h e = refl
  untyped_rest ns rest (suc n) untyped h e = absurd (ground (arith, type-parse_namespace js ns))

  TypedFirst-of : (xs : List J) → IsReadable xs → TypedFirst xs
  unfolding namespace_configs parse_namespaces
  TypedFirst-of [] h = tt
  TypedFirst-of (ns ∷ rest) h = elim (Bool-cases (is_some (text_member js ns (bytes "type")))) [
    | inl typed ↦ inl (typed, TypedFirst-of rest (ground (arith, type-parse_namespace js ns)))
    | inr untyped ↦ inr (
      untyped,
      IsUntyped-of_len rest (untyped_rest ns rest (parse_namespaces js rest).1 untyped h refl),
    )
  ]

  -- In `linux.namespaces` of `config.json`, if there is such an array, the elements with a string `type` come
  -- before the others.
  abbrev pub IsOrdered : J → Type 0
  IsOrdered config =
      (linux : J) (xs : List J)
      → js.object_get config (bytes "linux") ≡ some linux
      → array_member js linux (bytes "namespaces") ≡ some xs
      → TypedFirst xs

  context_namespaces_of :
      (config linux : J) (xs : List J)
      → js.object_get config (bytes "linux") ≡ some linux
      → array_member js linux (bytes "namespaces") ≡ some xs
      → is_some (context_namespaces (parse_spec js config).linux_config)
        ≡ is_some (namespace_configs (take (parse_namespaces js xs).1 (parse_namespaces js xs).0))
  unfolding context_namespaces parse_spec parse_linux
  context_namespaces_of config linux xs found listed = ground (arith, found, listed)

  pub context_namespaces-ordered :
      (config : J)
      → IsOrdered config
      → is_some (context_namespaces (parse_spec js config).linux_config) ≡ true
  unfolding context_namespaces parse_spec parse_linux
  context_namespaces-ordered config h = elim (Option-cases (js.object_get config (bytes "linux"))) [
    | inl e ↦ ground (arith, e)
    | inr (linux, e) ↦ elim (Option-cases (array_member js linux (bytes "namespaces"))) [
      | inl q ↦ ground (arith, e, q)
      | inr (xs, q) ↦ context_namespaces_of config linux xs e q ∙ IsReadable-of xs (h linux xs e q)
    ]
  ]

  pub IsOrdered-of :
      (config : J)
      → is_some (context_namespaces (parse_spec js config).linux_config) ≡ true
      → IsOrdered config
  IsOrdered-of config h linux xs e q =
      TypedFirst-of xs (sym (context_namespaces_of config linux xs e q) ∙ h)

abbrev pub spec_context : Spec → Bool
spec_context spec = is_some (context_namespaces spec.linux_config)

pub context_of_some :
    (p : Prepared) → is_some (context_of p) ≡ is_some (context_namespaces p.spec.linux_config)
unfolding context_of
context_of_some p = ground arith
