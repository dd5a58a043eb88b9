-- ===== src/Tests/Options.antt =====
-- Examples of the options, of the log and of the command `state`.
use vibe_kata.Base.{◌≡◌, ◌↔◌, ◌⊎◌, ◌≤◌, refl, true, false, none, some, [], ◌∷◌, if◌then◌else◌}
use vibe_kata.Base.Bytes.{bytes, str_eq, str_case_eq}
use vibe_kata.State.{Env}
use vibe_kata.Log.{
  debug, warn, error, level_number, initial, log_set_level, log_at, parse_env_level, parse_env_bool,
}
use vibe_kata.Log.Configured.{log_at-log_set_level}
use vibe_kata.Args.{
  Getopt, Parsed, accepted, default_options, parse_args, parse_command, parse_opts, parse_opt,
  check_options, is_valid_command, is_command, settle,
}
use vibe_kata.Args.Consistent.{IsConsistent, parse_args-IsConsistent}

-- One option `-d`, and the container `c`.
abbrev getopt : Getopt
getopt = record {
  opts = λ args. record { opt = b'd'; optarg = [] } ∷ [];
  rest = λ args. some (bytes "c");
}

abbrev parsed : Parsed
parsed = record {
  options = record (default_options (bytes "run")) {
    container_id = some (bytes "c");
    detach = true;
  };
  attach_set = false;
  detach_set = true;
  exec_set = false;
  log = initial;
}

parses : parse_args getopt initial (bytes "run" ∷ bytes "-d" ∷ bytes "c" ∷ []) ≡ accepted parsed
unfolding parse_args parse_command parse_opts parse_opt check_options is_valid_command is_command
    settle default_options str_eq
parses = refl

parse_args-IsConsistent_example :
    (parsed.options ≡ default_options (bytes "help"))
    ⊎ (parsed.options ≡ default_options (bytes "version"))
    ⊎ IsConsistent parsed.options
parse_args-IsConsistent_example =
    parse_args-IsConsistent getopt initial (bytes "run" ∷ bytes "-d" ∷ bytes "c" ∷ []) {q = parsed}
      parses

abbrev log_env : Env
log_env = record {
  getenv = λ name.
      if str_eq name (bytes "NK_LOG_LEVEL")
      then some (bytes "Error")
      else if str_eq name (bytes "NK_LOG_ENABLED")
      then some (bytes "1")
      else none;
  geteuid = 0;
}

level_named : parse_env_level (log_env.getenv (bytes "NK_LOG_LEVEL")) ≡ some error
unfolding parse_env_level str_eq str_case_eq
level_named = refl

log_on : parse_env_bool (log_env.getenv (bytes "NK_LOG_ENABLED")) ≡ some true
unfolding parse_env_bool str_eq str_case_eq
log_on = refl

log_at-log_set_level_example :
    ((log_at log_env warn (log_set_level debug initial)).0 ≡ true)
    ↔ (level_number error ≤ level_number warn)
log_at-log_set_level_example =
    log_at-log_set_level log_env debug error warn initial refl level_named log_on
