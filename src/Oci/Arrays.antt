-- ===== src/Oci/Arrays.antt =====
-- What the loops over the namespaces and the mounts leave in the arrays of the specification, against
-- the length fields that the readers of the arrays go by.
use vibe_kata.Base.{
  ℕ, suc, ◌≡◌, refl, ap, true, false, none, some, List, [], ◌∷◌, ◌++◌, map, arith, length,
  get_elem?, take, All, is_some, Option-cases, inl, inr,
}
use vibe_kata.Base.Bytes.{bytes}
use vibe_kata.Jansson.{Jansson}
use vibe_kata.Oci.Parse.{text_member, parse_namespace, parse_namespaces}

module _ {J T : Type 0} (js : Jansson J T) where
  -- An element of the JSON array whose `type` is a string.
  abbrev pub IsTyped : J → Type 0
  IsTyped ns = is_some (text_member js ns (bytes "type")) ≡ true

  abbrev pub IsUntyped : J → Type 0
  IsUntyped ns = is_some (text_member js ns (bytes "type")) ≡ false

  pub type-parse_namespace :
      (ns : J) → (parse_namespace js ns).type ≡ text_member js ns (bytes "type")
  unfolding parse_namespace
  type-parse_namespace ns = ground arith

  -- Every element of the JSON array has its place in the array of the specification.
  parse_namespaces-map : (xs : List J) → (parse_namespaces js xs).0 ≡ map (parse_namespace js) xs
  unfolding parse_namespaces
  parse_namespaces-map [] = refl
  parse_namespaces-map (x ∷ xs) = ap (λ ys. parse_namespace js x ∷ ys) (parse_namespaces-map xs)

  parse_namespaces_len : (xs : List J) → All IsTyped xs → (parse_namespaces js xs).1 ≡ length xs
  unfolding parse_namespaces
  parse_namespaces_len [] h = refl
  parse_namespaces_len (x ∷ xs) h =
      ground (arith, type-parse_namespace x, parse_namespaces_len xs h.1)

  -- Where every element of `linux.namespaces` has a string `type`, the readers of the array, which
  -- go by its length field, see the elements, in order and all of them.
  pub parse_namespaces_typed :
      (xs : List J)
      → All IsTyped xs
      → take (parse_namespaces js xs).1 (parse_namespaces js xs).0 ≡ map (parse_namespace js) xs
  unfolding parse_namespaces
  parse_namespaces_typed [] h = refl
  parse_namespaces_typed (x ∷ xs) h =
      ground (arith, type-parse_namespace x, parse_namespaces_typed xs h.1)

  parse_namespaces_pos :
      (mid : List J) (good : J) (suf : List J)
      → IsTyped good
      → (n : ℕ) × ((parse_namespaces js (mid ++ (good ∷ suf))).1 ≡ suc n)
  unfolding parse_namespaces
  parse_namespaces_pos [] good suf g =
      ((parse_namespaces js suf).1, ground (arith, type-parse_namespace good))
  parse_namespaces_pos (x ∷ mid) good suf g =
      let (n, e) = parse_namespaces_pos mid good suf g in
      elim (Option-cases (parse_namespace js x).type) [
        | inl untyped ↦ (n, ground (arith, untyped, e))
        | inr (t, typed) ↦ (suc n, ground (arith, typed, e))
      ]

  -- Where an element of `linux.namespaces` without a string `type` stands before one with a type,
  -- the readers of the array meet a namespace whose type is NULL, at the place of the first such
  -- element.
  pub parse_namespaces_hole :
      (pre : List J) (bad : J) (mid : List J) (good : J) (suf : List J)
      → All IsTyped pre
      → IsUntyped bad
      → IsTyped good
      → let (entries, len) = parse_namespaces js (pre ++ (bad ∷ (mid ++ (good ∷ suf)))) in
        get_elem? (take len entries) (length pre) ≡ some (record { type = none; path = none })
  unfolding parse_namespaces parse_namespace
  parse_namespaces_hole [] bad mid good suf h b g =
      let (n, e) = parse_namespaces_pos mid good suf g in ground (arith, e)
  parse_namespaces_hole (x ∷ pre) bad mid good suf h b g =
      ground (arith, parse_namespaces_hole pre bad mid good suf h.1 b g)
