-- ===== src/Tests/History.antt =====
-- Examples of sequences of commands.
use vibe_kata.Base.{
  ◌≡◌, refl, sym, subst, ◌∙◌, ◌⊎◌, inl, inr, true, false, Option, none, some, arith, is_some,
}
use vibe_kata.Base.Int.{pos}
use vibe_kata.Base.Bytes.{CString, bytes, str_eq, str_eq_iff}
use vibe_kata.Files.Memory.{Disk, disk_files, disk_files-IsLawful}
use vibe_kata.Jansson.Value.{Value, json_values, json_values-IsLawful}
use vibe_kata.Types.{Container, created, stopped, container}
use vibe_kata.State
use vibe_kata.State.{
  mkdir_p, strip_slash, get_container_dir, mkdir_loop, mkdir_parents, mkdir_or_exists,
  ensure_container_dir, make_container_dir, write_state, dump_to, state_to_json, state_to_string,
  mode_to_string, get_container_state_path, get_state_dir, parse_state, json_to_container,
  string_member, integer_member, string_to_state, string_to_mode,
}
use vibe_kata.Base.Int.{to_int32}
use vibe_kata.Lifecycle.{create, new_container}
use vibe_kata.Lifecycle.Change.{IsSettled, IsNamed, Change}
use vibe_kata.Lifecycle.Steps.{Removed, creates, create_refused, Reach, start_at, then_step}
use vibe_kata.Lifecycle.Implements.{Step-Change}
use vibe_kata.Lifecycle.History.{Reach-IsSettled, Reach-stopped, Reach-fixed}
use vibe_kata.Tests.World.{env, bundle_disk, stored_disk, held, options, kernel}
use vibe_kata.Tests.Fixtures.{flushes, kernel-PidsFit, same_id, c_encodes, b_encodes}
use vibe_kata.Tests.Ended.{creates_c}
use vibe_kata.Tests.Others.{c_d_apart, kernel-Undisturbed}
use vibe_kata.Lifecycle.Apart.{load-Step_other}
use vibe_kata.Oci.{spec_load, spec_validate, parse_spec, config_path}
use vibe_kata.Lifecycle.{ensure_state_dir, has_valid_spec, create_new}

-- The containers `c` and `d`.
abbrev pub Ids : CString → Type 0
Ids i = (i ≡ bytes "c") ⊎ (i ≡ bytes "d")

pub encodes : (i : CString) → Ids i → is_some (json_values.string i) ≡ true
unfolding json_values
encodes i (inl e) = rw e refl
encodes i (inr e) = rw e refl

abbrev path : CString → CString
path = get_container_state_path env

pub apart : (i j : CString) → Ids i → Ids j → str_eq i j ≡ false → str_eq (path i) (path j) ≡ false
unfolding get_container_state_path get_state_dir str_eq
apart i j (inl e) (inl f) h = absurd (ground (arith, (str_eq_iff i j).1 (e ∙ sym f)))
apart i j (inl e) (inr f) h = rw (e, f) refl
apart i j (inr e) (inl f) h = rw (e, f) refl
apart i j (inr e) (inr f) h = absurd (ground (arith, (str_eq_iff i j).1 (e ∙ sym f)))

abbrev pub stored : CString → Disk Value → Option Container
stored i w = State.load disk_files json_values env i w

-- A bundle, and no container.
pub none_stored : (j : CString) → Ids j → stored j bundle_disk ≡ none
unfolding State.load parse_state get_container_state_path get_state_dir disk_files str_eq
none_stored j (inl e) =
    subst (λ x. State.load disk_files json_values env x bundle_disk ≡ none) (sym e) refl
none_stored j (inr e) =
    subst (λ x. State.load disk_files json_values env x bundle_disk ≡ none) (sym e) refl

abbrev pub after_create : Disk Value
after_create = (create disk_files json_values env options (bytes "c") bundle_disk).1

creation_c : Reach disk_files json_values env (kernel none) Ids bundle_disk after_create
creation_c = then_step (bytes "c") start_at (inl refl) (
    creates options (record { full = ground arith; encodes = b_encodes })
      (none_stored (bytes "c") (inl refl)) creates_c (flushes _ _))

created_c : stored (bytes "c") after_create ≡ some (held created (pos 0))
unfolding create State.load parse_state json_to_container string_member integer_member
    string_to_state string_to_mode to_int32 create_new ensure_state_dir has_valid_spec new_container
    State.exists State.save ensure_container_dir make_container_dir mkdir_p mkdir_parents mkdir_loop
    mkdir_or_exists strip_slash get_state_dir get_container_dir get_container_state_path write_state
    dump_to disk_files json_values state_to_json state_to_string mode_to_string str_eq spec_load
    parse_spec config_path spec_validate
created_c = refl

load-Step_other_example : stored (bytes "d") after_create ≡ stored (bytes "d") bundle_disk
load-Step_other_example =
    load-Step_other env (kernel none) disk_files-IsLawful json_values-IsLawful (bytes "c")
      (bytes "d") c_d_apart (kernel-Undisturbed (bytes "d")) {w = bundle_disk} {w' = after_create}
      (creates options (record { full = ground arith; encodes = b_encodes })
        (none_stored (bytes "c") (inl refl)) creates_c (flushes _ _))
      (λ c e. absurd (ground (arith, none_stored (bytes "c") (inl refl), e)))

pub no_name : (j : CString) → Ids j → IsNamed j (stored j bundle_disk)
no_name j m c e = absurd (ground (arith, none_stored j m, e))

Reach-IsSettled_example :
    ((held created (pos 0)).id ≡ some (bytes "c")) × IsSettled (held created (pos 0))
Reach-IsSettled_example =
    Reach-IsSettled env (kernel none) disk_files-IsLawful json_values-IsLawful (kernel-PidsFit none)
      Ids encodes apart (λ i m. kernel-Undisturbed i) {w = bundle_disk} {v = after_create}
      none_stored creation_c (bytes "c") (held created (pos 0)) (inl refl) created_c

-- The container is stopped, and a creation is refused.
abbrev stopped_disk : Disk Value
stopped_disk = stored_disk (bytes "stopped") 0

stopped_c : stored (bytes "c") stopped_disk ≡ some (held stopped (pos 0))
unfolding State.load parse_state json_to_container string_member integer_member string_to_state
    string_to_mode get_container_state_path get_state_dir disk_files json_values str_eq to_int32
stopped_c = refl

stopped_d : stored (bytes "d") stopped_disk ≡ none
unfolding State.load parse_state get_container_state_path get_state_dir disk_files str_eq
stopped_d = refl

stopped_there : State.exists disk_files env (bytes "c") stopped_disk ≡ true
unfolding State.exists get_container_state_path get_state_dir disk_files str_eq
stopped_there = refl

IsNamed-stored : (j : CString) → Ids j → IsNamed j (stored j stopped_disk)
IsNamed-stored j (inl e) c h =
    subst (λ x. c.id ≡ some x) (sym e)
      (same_id _ (held stopped (pos 0)) c stopped_c
        (subst (λ x. stored x stopped_disk ≡ some c) e h) refl)
IsNamed-stored j (inr e) c h =
    absurd (ground (arith, stopped_d, subst (λ x. stored x stopped_disk ≡ some c) e h))

abbrev after_refusal : Disk Value
after_refusal = (create disk_files json_values env options (bytes "c") stopped_disk).1

refusal_c : Reach disk_files json_values env (kernel none) Ids stopped_disk after_refusal
refusal_c = then_step (bytes "c") start_at (inl refl) (create_refused options stopped_there)

Step-Change_example :
    Change (bytes "c") (stored (bytes "c") stopped_disk) (stored (bytes "c") after_refusal)
Step-Change_example =
    Step-Change env (kernel none) disk_files-IsLawful json_values-IsLawful (bytes "c") c_encodes
      (kernel-Undisturbed (bytes "c")) (kernel-PidsFit none) {w = stopped_disk} {w' = after_refusal}
      (create_refused options stopped_there) (IsNamed-stored (bytes "c") (inl refl))

Reach-stopped_example :
    (stored (bytes "c") after_refusal ≡ some (held stopped (pos 0)))
    ⊎ Removed disk_files json_values env (kernel none) Ids (bytes "c") stopped_disk after_refusal
Reach-stopped_example =
    Reach-stopped env (kernel none) disk_files-IsLawful json_values-IsLawful (kernel-PidsFit none)
      Ids encodes apart (λ i m. kernel-Undisturbed i) stopped_disk IsNamed-stored (bytes "c")
      (inl refl) (held stopped (pos 0)) {v = after_refusal} refusal_c stopped_c refl

Reach-fixed_example :
    ((d : Container) × (stored (bytes "c") after_refusal ≡ some d)
      × (d.bundle_path ≡ some (bytes "/b"))
      × (d.mode ≡ container))
    ⊎ Removed disk_files json_values env (kernel none) Ids (bytes "c") stopped_disk after_refusal
Reach-fixed_example =
    Reach-fixed env (kernel none) disk_files-IsLawful json_values-IsLawful (kernel-PidsFit none) Ids
      encodes apart (λ i m. kernel-Undisturbed i) stopped_disk IsNamed-stored (bytes "c") (inl refl)
      (held stopped (pos 0)) {v = after_refusal} refusal_c stopped_c
