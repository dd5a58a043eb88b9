-- ===== src/Args/Consistent.antt =====
-- What holds of the options that `nk_parse_args` accepts.
use vibe_kata.Base.{
  ◌≡◌, refl, true, false, Bool-cases, Option, List, [], ◌∷◌, arith, inl, inr, ◌⊎◌, subst, ap, ◌∙◌,
  ◌||◌, ◌&&◌, not, is_some,
}
use vibe_kata.Base.Bytes.{CString, bytes, str_eq}
use vibe_kata.Types.{Options}
use vibe_kata.Log.{LogConfig}
use vibe_kata.Args.{
  Opt, Getopt, Parsed, Asked, Parse, rejected, exited, accepted, parse_opt, parse_opts,
  is_valid_command, settle, check_options, parse_command, parse_args, default_options,
}

pub Parse-cases {ℓ} :
    {A : Type ℓ} (r : Parse A)
    → (r ≡ rejected) ⊎ ((a : Asked) × (r ≡ exited a)) ⊎ ((a : A) × (r ≡ accepted a))
Parse-cases rejected = inl refl
Parse-cases (exited a) = inr (inl (a, refl))
Parse-cases (accepted a) = inr (inr (a, refl))

-- A flag is set in the options just where the loop has seen it, and the command stays.
record Tracks (command : CString) (p : Parsed) : Type 0 where
  tracked_attach : p.options.attach ≡ p.attach_set
  tracked_detach : p.options.detach ≡ p.detach_set
  same_command : p.options.command ≡ command

parse_opt-attach :
    (p : Parsed) (o : Opt) {q : Parsed}
    → p.options.attach ≡ p.attach_set
    → parse_opt p o ≡ accepted q
    → q.options.attach ≡ q.attach_set
unfolding parse_opt
parse_opt-attach p o {q} t h = ground arith

parse_opt-detach :
    (p : Parsed) (o : Opt) {q : Parsed}
    → p.options.detach ≡ p.detach_set
    → parse_opt p o ≡ accepted q
    → q.options.detach ≡ q.detach_set
unfolding parse_opt
parse_opt-detach p o {q} t h = ground arith

parse_opt-command :
    (p : Parsed) (o : Opt) {q : Parsed}
    → parse_opt p o ≡ accepted q
    → q.options.command ≡ p.options.command
unfolding parse_opt
parse_opt-command p o {q} h = ground arith

parse_opts-Tracks :
    (command : CString) (p : Parsed) (os : List Opt) {q : Parsed}
    → Tracks command p
    → parse_opts p os ≡ accepted q
    → Tracks command q
unfolding parse_opts
parse_opts-Tracks command p [] {q} t h = subst (Tracks command) (ground arith) t
parse_opts-Tracks command p (o ∷ os) {q} t h = elim (Parse-cases (parse_opt p o)) [
  | inl e ↦ absurd (ground (arith, e))
  | inr (inl (a, e)) ↦ absurd (ground (arith, e))
  | inr (inr (p', e)) ↦
      parse_opts-Tracks command p' os {q = q}
        (record {
          tracked_attach = parse_opt-attach p o {q = p'} t.tracked_attach e;
          tracked_detach = parse_opt-detach p o {q = p'} t.tracked_detach e;
          same_command = parse_opt-command p o {q = p'} e ∙ t.same_command;
        })
        (ground (arith, e))
]

-- Just one of the two ways to start, `--rm` only where `run` waits for the container, and nothing of
-- these for the other commands. Each command has its container.
pub record IsConsistent (o : Options) : Type 0 where
  pub named : is_some o.container_id ≡ true
  pub one_way :
      str_eq o.command (bytes "start") || str_eq o.command (bytes "run") ≡ true
      → o.attach ≡ not o.detach
  pub rm_attached : o.rm ≡ true → (str_eq o.command (bytes "run") && o.attach) ≡ true
  pub unset :
      str_eq o.command (bytes "start") || str_eq o.command (bytes "run") ≡ false
      → (o.attach || o.detach || o.rm) ≡ false

settle-named :
    (p : Parsed) {q : Parsed}
    → settle p ≡ accepted q
    → q.options.container_id ≡ p.options.container_id
unfolding settle
settle-named p {q} h = ground arith

settle-command :
    (p : Parsed) {q : Parsed} → settle p ≡ accepted q → q.options.command ≡ p.options.command
unfolding settle
settle-command p {q} h = ground arith

module _ (command : CString) (p : Parsed) {q : Parsed} (t : Tracks command p)
    (apart : p.attach_set && p.detach_set ≡ false) (h : settle p ≡ accepted q) where
  settle-one_way :
      str_eq q.options.command (bytes "start") || str_eq q.options.command (bytes "run") ≡ true
      → q.options.attach ≡ not q.options.detach
  unfolding settle
  settle-one_way k = ground (arith, settle-command p {q = q} h, t.tracked_attach, t.tracked_detach)

  settle-rm :
      q.options.rm ≡ true → (str_eq q.options.command (bytes "run") && q.options.attach) ≡ true
  unfolding settle
  settle-rm k = ground (arith, settle-command p {q = q} h, t.tracked_attach, t.tracked_detach)

  settle-unset :
      str_eq q.options.command (bytes "start") || str_eq q.options.command (bytes "run") ≡ false
      → (q.options.attach || q.options.detach || q.options.rm) ≡ false
  unfolding settle
  settle-unset k = ground (arith, settle-command p {q = q} h)

is_valid_command-named :
    (p : Parsed) → is_valid_command p ≡ true → is_some p.options.container_id ≡ true
unfolding is_valid_command
is_valid_command-named p h = ground arith

check_options-IsConsistent :
    (command : CString) (p : Parsed) {q : Parsed}
    → Tracks command p
    → check_options p ≡ accepted q
    → IsConsistent q.options
unfolding check_options
check_options-IsConsistent command p {q} t h =
    let apart : p.attach_set && p.detach_set ≡ false = ground arith in
    let valid : is_valid_command p ≡ true = ground arith in
    let settled : settle p ≡ accepted q = ground (arith, apart, valid) in
    record {
      named = ap is_some (settle-named p {q = q} settled) ∙ is_valid_command-named p valid;
      one_way = settle-one_way command p {q = q} t apart settled;
      rm_attached = settle-rm command p {q = q} t apart settled;
      unset = settle-unset command p {q = q} t apart settled;
    }

with_id-Tracks :
    (command : CString) (p : Parsed) (id : Option CString)
    → Tracks command p
    → Tracks command (record p { options = record p.options { container_id = id } })
with_id-Tracks command p id t = record {
  tracked_attach = t.tracked_attach;
  tracked_detach = t.tracked_detach;
  same_command = t.same_command;
}

parse_command-IsConsistent :
    (g : Getopt) (log : LogConfig) (command : CString) (args : List CString) {q : Parsed}
    → parse_command g log command args ≡ accepted q
    → IsConsistent q.options
unfolding parse_command default_options
parse_command-IsConsistent g log command args {q} h =
    let start : Parsed = record {
      options = default_options command;
      attach_set = false;
      detach_set = false;
      exec_set = false;
      log = log;
    } in
    elim (Parse-cases (parse_opts start (g.opts args))) [
      | inl e ↦ absurd (ground (arith, e))
      | inr (inl (a, e)) ↦ absurd (ground (arith, e))
      | inr (inr (p, e)) ↦
          let t =
            parse_opts-Tracks command start (g.opts args) {q = p}
              (record { tracked_attach = refl; tracked_detach = refl; same_command = refl }) e in
          check_options-IsConsistent command _ {q = q} (with_id-Tracks command p (g.rest args) t)
            (ground (arith, e))
    ]

-- What `nk_parse_args` accepts is the help, the version, or a command with a container: `start` and
-- `run` have just one of attaching and detaching, `--rm` stands only with a `run` that attaches,
-- and the other commands have none of the three.
pub parse_args-IsConsistent :
    (g : Getopt) (log : LogConfig) (args : List CString) {q : Parsed}
    → parse_args g log args ≡ accepted q
    → (q.options ≡ default_options (bytes "help"))
      ⊎ (q.options ≡ default_options (bytes "version"))
      ⊎ IsConsistent q.options
unfolding parse_args
parse_args-IsConsistent g log [] h = cc
parse_args-IsConsistent g log (command ∷ args) {q} h =
    elim (Bool-cases (str_eq command (bytes "-h") || str_eq command (bytes "--help"))) [
      | inl e ↦ inl (ground (arith, e))
      | inr e ↦
          elim (Bool-cases (str_eq command (bytes "-v") || str_eq command (bytes "--version"))) [
            | inl k ↦ inr (inl (ground (arith, e, k)))
            | inr k ↦
                inr (
                  inr
                    (parse_command-IsConsistent g log command args {q = q} (ground (arith, e, k))))
          ]
    ]
