-- ===== src/Lifecycle/Returns.antt =====
-- Whether the commands of src/main.c return: `nk_container_start` reads through a NULL pointer where one of
-- the namespaces that it goes over has no type.
use vibe_kata.Base.{
  Option, ℕ, ◌≡◌, ◌↔◌, ◌∙◌, ap, Bool, true, none, some, is_some, Option-cases, inl, inr, arith,
}
use vibe_kata.Base.Bytes.{CString}
use vibe_kata.Files.{Files}
use vibe_kata.Jansson.{Jansson}
use vibe_kata.Oci.{parse_spec, spec_load, config_path}
use vibe_kata.Lifecycle.Context.{Prepared, context_of}
use vibe_kata.Lifecycle.Start.{
  crashed, returned, prepare, prepare_container, prepare_spec, launch, start,
}
use vibe_kata.State.{Env}
use vibe_kata.State
use vibe_kata.Types.{Container}
use vibe_kata.Container.Kernel.{Kernel}
use vibe_kata.Lifecycle.Typed.{
  IsOrdered, context_namespaces-ordered, IsOrdered-of, spec_context, context_of_some,
}

module _ {W J T : Type 0} (fs : Files W T) (js : Jansson J T) (env : Env) where
  -- The start of a container reads and parses this `config.json`.
  abbrev pub Reads : CString → W → J → Type 0
  Reads i w config =
      (c : Container) × (bundle : CString) × (content : T) × (State.load fs js env i w ≡ some c)
      × (c.bundle_path ≡ some bundle)
      × (fs.read (config_path bundle) w ≡ some content)
      × (js.loads content ≡ some config)

  -- There is only one.
  pub Reads-unique : (i : CString) (w : W) {a b : J} → Reads i w a → Reads i w b → a ≡ b
  Reads-unique i w (c, bundle, t, loaded, named, there, parsed)
        (d, bundle_d, u, loaded_d, named_d, there_d, parsed_d) =
      ground (arith, loaded, named, there, parsed, loaded_d, named_d, there_d, parsed_d)

  prepare-Reads :
      (i : CString) (w : W) {p : Prepared}
      → prepare fs js env i w ≡ some p
      → (config : J) × Reads i w config × (p.spec ≡ parse_spec js config)
  unfolding prepare prepare_container prepare_spec spec_load
  prepare-Reads i w {p} h = elim (Option-cases (State.load fs js env i w)) [
    | inl e ↦ absurd (ground (arith, e))
    | inr (c, loaded) ↦ elim (Option-cases c.bundle_path) [
      | inl e ↦ absurd (ground (arith, loaded, e))
      | inr (bundle, named) ↦ elim (Option-cases (fs.read (config_path bundle) w)) [
        | inl e ↦ absurd (ground (arith, loaded, named, e))
        | inr (content, there) ↦ elim (Option-cases (js.loads content)) [
          | inl e ↦ absurd (ground (arith, loaded, named, there, e))
          | inr (config, parsed) ↦ (
            config,
            (c, bundle, content, loaded, named, there, parsed),
            ground (arith, loaded, named, there, parsed),
          )
        ]
      ]
    ]
  ]

  -- The `config.json` that is read is the one that is parsed.
  prepare-parsed :
      (i : CString) (w : W) {p : Prepared} {config : J}
      → prepare fs js env i w ≡ some p
      → Reads i w config
      → p.spec ≡ parse_spec js config
  unfolding prepare prepare_container prepare_spec spec_load
  prepare-parsed i w {p} {config} h (c, bundle, content, loaded, named, there, parsed) =
      ground (arith, loaded, named, there, parsed)

  module _ (k : Kernel W) where
    -- A start returns where no element without a type stands before one with a type.
    pub start_returns :
        (i : CString) (attach : Bool) (w : W)
        → ((config : J) → Reads i w config → IsOrdered js config)
        → (r : Option ℕ) × (w' : W) × (start fs js env k i attach w ≡ returned r w')
    unfolding start
    start_returns i attach w h = elim (Option-cases (prepare fs js env i w)) [
      | inl e ↦ (none, w, ground (arith, e))
      | inr (p, e) ↦
          let (config, reads, same) = prepare-Reads i w {p = p} e in
          let readable : is_some (context_of p) ≡ true =
            context_of_some p ∙ rw same (context_namespaces-ordered js config (h config reads)) in
          elim (Option-cases (context_of p)) [
            | inl f ↦ absurd (ground (arith, readable, f))
            | inr (ctx, f) ↦
                let (r, w') = launch fs js env k p.stored ctx attach w in
                (r, w', ground (arith, e, f))
          ]
    ]

    -- Where the checks of `nk_container_start` pass, it reads through a NULL pointer exactly when
    -- in the `config.json` that it reads an element of `linux.namespaces` without a string `type`
    -- stands before one with a string `type`, which is to say that the elements with one do not
    -- come first.
    pub start_crashes :
        (i : CString) (attach : Bool) (w : W) {p : Prepared} {config : J}
        → prepare fs js env i w ≡ some p
        → Reads i w config
        → (start fs js env k i attach w ≡ crashed) ↔ ¬ IsOrdered js config
    unfolding start
    start_crashes i attach w {p} {config} e reads =
        let same =
          context_of_some p
          ∙ ap spec_context (prepare-parsed i w {p = p} {config = config} e reads) in
        elim (Option-cases (context_of p)) [
          | inl f ↦ (
            λ _ h. absurd (ground (arith, same, f, context_namespaces-ordered js config h)),
            λ _. ground (arith, e, f),
          )
          | inr (ctx, f) ↦ (
            λ q. absurd (ground (arith, e, f, q)),
            λ h. absurd (h (IsOrdered-of js config (ground (arith, same, f)))),
          )
        ]
