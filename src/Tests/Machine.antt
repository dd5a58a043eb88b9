-- ===== src/Tests/Machine.antt =====
-- Examples of a run of the program as a sequence of steps.
use vibe_kata.Base.{◌≡◌, refl, sym, ap, ◌∙◌, subst, none, some, inl, arith}
use mathlib.Core.Option.{some-injective}
use vibe_kata.Base.Int.{pos}
use vibe_kata.Base.Bytes.{bytes, str_eq}
use vibe_kata.Files.Memory.{disk_files}
use vibe_kata.Jansson.Value.{json_values}
use vibe_kata.Log.{initial}
use vibe_kata.Args.{Parsed, default_options}
use vibe_kata.Lifecycle.{returned, finish_run_command, main_command, renamed, run}
use vibe_kata.Lifecycle.Steps.{Reach}
use vibe_kata.Lifecycle.Machine.{CommandStored}
use vibe_kata.Program.{main, run_options, run_command}
use vibe_kata.Program.Whole.{main-Reach}
use vibe_kata.Tests.World.{env, kernel, bundle_disk}
use vibe_kata.Tests.Fixtures.{flushes, b_encodes}
use vibe_kata.Tests.History.{Ids, none_stored}
use vibe_kata.Tests.Books.{getopt, arguments, parsed, parses}
use vibe_kata.Tests.Composed.{
  options_rm, run_world, launch_stored, end_stored, Deletes-ended_world, runs, creates_rm,
}

stored : CommandStored disk_files json_values env (kernel none) options_rm (bytes "c") bundle_disk
unfolding renamed str_eq
stored = record {
  no_pid_file = refl;
  at_create = λ other. absurd (ground (arith, other));
  at_start = λ other. absurd (ground (arith, other));
  at_run = λ _. (
    (
      λ _. (
        record { full = ground arith; encodes = b_encodes },
        none_stored (bytes "c") (inl refl),
        flushes _ _,
      ),
      λ failed. absurd (ground (arith, creates_rm, failed)),
    ),
    (launch_stored, λ _. end_stored),
  );
  at_removal = λ _ _. Deletes-ended_world;
  at_exec = λ other. absurd (ground (arith, other));
  at_delete = λ other. absurd (ground (arith, other));
}

command_runs :
    main_command disk_files json_values env (kernel none) options_rm (bytes "c") bundle_disk
    ≡ finish_run_command disk_files json_values env
        (kernel none)
        options_rm
        (bytes "c")
        (run disk_files json_values env (kernel none) options_rm (bytes "c") bundle_disk)
unfolding main_command renamed str_eq
command_runs = refl

finishes :
    finish_run_command disk_files json_values env
      (kernel none)
      options_rm
      (bytes "c")
      (returned (some 7) run_world)
    ≡ returned (some (pos 7)) run_world
unfolding finish_run_command
finishes = refl

main_runs :
    (main disk_files json_values env
      (kernel none)
      getopt
      initial
      (bytes "nano")
      arguments
      bundle_disk).ends
    ≡ returned (some (pos 7)) run_world
unfolding main run_options run_command default_options str_eq
main_runs =
    rw (parses, main)
      (command_runs
        ∙ ap (finish_run_command disk_files json_values env (kernel none) options_rm (bytes "c"))
            runs
        ∙ finishes)

main-Reach_example : Reach disk_files json_values env (kernel none) Ids bundle_disk run_world
unfolding default_options
main-Reach_example =
    main-Reach disk_files json_values env (kernel none) Ids getopt initial (bytes "nano") arguments
      bundle_disk {r = some (pos 7)} {w' = run_world}
      (λ p i h named.
        let same : parsed ≡ p = ground (arith, parses, h) in
        let id =
          some-injective (bytes "c") i (ap (λ (q : Parsed). q.options.container_id) same ∙ named) in
        (
          inl (sym id),
          subst
              (λ (q : Parsed).
                CommandStored disk_files json_values env (kernel none) q.options i bundle_disk)
              same
              (subst
                (λ x.
                  CommandStored disk_files json_values env (kernel none) options_rm x bundle_disk)
                id stored),
        ))
      main_runs
