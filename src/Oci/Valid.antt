-- ===== src/Oci/Valid.antt =====
-- What `nk_oci_spec_validate` accepts of the specifications that `nk_oci_spec_load` returns.
use vibe_kata.Base.{◌≡◌, ◌↔◌, true, some, List, [], ◌∷◌, arith, Option-cases, inl, inr}
use vibe_kata.Base.Bytes.{CString, bytes}
use vibe_kata.Jansson.{Jansson}
use vibe_kata.Oci.Parse.{text_member, array_member}
use vibe_kata.Oci.Load.{parse_spec, spec_validate, has_path, has_args}

module _ {J T : Type 0} (js : Jansson J T) where
  -- `config.json` has a string `root.path`.
  abbrev pub HasRoot : J → Type 0
  HasRoot config =
      (r : J) × (path : CString) × (js.object_get config (bytes "root") ≡ some r)
      × (text_member js r (bytes "path") ≡ some path)

  -- `config.json` has an array `process.args` with an element.
  abbrev pub HasArgs : J → Type 0
  HasArgs config =
      (p : J) × (arg : J) × (args : List J) × (js.object_get config (bytes "process") ≡ some p)
      × (array_member js p (bytes "args") ≡ some (arg ∷ args))

  has_path_iff : (config : J) → (has_path (parse_spec js config).root ≡ true) ↔ HasRoot config
  unfolding parse_spec
  has_path_iff config = ground arith

  args_of :
      (config : J) (p : J) (args : List J)
      → js.object_get config (bytes "process") ≡ some p
      → array_member js p (bytes "args") ≡ some args
      → has_args (parse_spec js config).process ≡ true
      → HasArgs config
  unfolding parse_spec
  args_of config p [] found listed h = absurd (ground (arith, found, listed))
  args_of config p (arg ∷ args) found listed h = (p, arg, args, found, listed)

  HasArgs-of : (config : J) → has_args (parse_spec js config).process ≡ true → HasArgs config
  unfolding parse_spec
  HasArgs-of config h = elim (Option-cases (js.object_get config (bytes "process"))) [
    | inl e ↦ absurd (ground (arith, e))
    | inr (p, e) ↦ elim (Option-cases (array_member js p (bytes "args"))) [
      | inl q ↦ absurd (ground (arith, e, q))
      | inr (args, q) ↦ args_of config p args e q h
    ]
  ]

  has_args_of : (config : J) → HasArgs config → has_args (parse_spec js config).process ≡ true
  unfolding parse_spec
  has_args_of config (p, arg, args, found, listed) = ground (arith, found, listed)

  -- `nk_oci_spec_validate` accepts a parsed specification exactly when `config.json` has a string
  -- `root.path` and an array `process.args` with an element.
  pub spec_validate-parse_spec :
      (config : J)
      → (spec_validate (parse_spec js config) ≡ true) ↔ (HasRoot config × HasArgs config)
  unfolding spec_validate
  spec_validate-parse_spec config = (
    λ h. ((has_path_iff config).0 (ground arith), HasArgs-of config (ground arith)),
    λ (r, a). ground (arith, (has_path_iff config).1 r, has_args_of config a),
  )
