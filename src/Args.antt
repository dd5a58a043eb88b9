-- ===== src/Args.antt =====
-- `nk_parse_args` (src/main.c). `getopt_long` is a parameter: the options it returns for the arguments
-- from `argv[2]` on, one after the other, and then `argv[optind]`, if `optind < argc`. A call of the
-- code that ends the process, for `--help` and `--version`, is an outcome of its own.
pub mod Consistent
use vibe_kata.Base.{
  ℕ, Bool, true, false, Option, none, some, List, [], ◌∷◌, ◌==◌, ◌||◌, ◌&&◌, not, is_some,
  if◌then◌else◌,
}
use vibe_kata.Base.Bytes.{CString, bytes, str_eq}
use vibe_kata.Types.{ExecutionMode, container, vm, Options}
use vibe_kata.Log.{
  LogConfig, LogLevel, debug, info, log_set_level, log_enable, log_set_educational, parse_env_level,
}

-- What `getopt_long` returns: the code of an option, with its argument where it has one, which is
-- empty where it has none. A code that is none of the options stands for an error.
pub record Opt : Type 0 where
  pub opt : ℕ
  pub optarg : CString

pub record Getopt : Type 0 where
  pub opts : List CString → List Opt
  pub rest : List CString → Option CString

-- The options so far, the local flags, and the configuration of the log.
pub record Parsed : Type 0 where
  pub options : Options
  pub attach_set : Bool
  pub detach_set : Bool
  pub exec_set : Bool
  pub log : LogConfig

-- What is printed before a call of `exit(0)`.
pub data Asked : Type 0 where
  asked_help asked_version : Asked

-- -1, `exit(0)`, or on.
pub data Parse {ℓ} (A : Type ℓ) : Type ℓ where
  rejected : Parse A
  exited : Asked → Parse A
  accepted : A → Parse A

unfoldable pub default_options : CString → Options
default_options command = record {
  command = command;
  container_id = none;
  bundle_path = bytes ".";
  pid_file = none;
  resume_exec = none;
  mode = container;
  attach = false;
  detach = false;
  rm = false;
}

unfoldable pub runtime_mode : CString → Option ExecutionMode
runtime_mode s =
    if str_eq s (bytes "container")
    then some container
    else if str_eq s (bytes "vm")
    then some vm
    else none

abbrev with_mode : Parsed → Option ExecutionMode → Parse Parsed
with_mode p none = rejected
with_mode p (some mode) = accepted (record p { options = record p.options { mode = mode } })

abbrev with_level : Parsed → Option LogLevel → Parse Parsed
with_level p none = rejected
with_level p (some level) = accepted (record p { log = log_set_level level p.log })

-- The cases of the `switch`.
unfoldable pub parse_opt : Parsed → Opt → Parse Parsed
unfolding runtime_mode
parse_opt p o =
    if o.opt == b'b'
    then accepted (record p { options = record p.options { bundle_path = o.optarg } })
    else if o.opt == b'r'
    then with_mode p (runtime_mode o.optarg)
    else if o.opt == b'p'
    then accepted (record p { options = record p.options { pid_file = some o.optarg } })
    else if o.opt == b'a'
    then accepted (record p { options = record p.options { attach = true }; attach_set = true })
    else if o.opt == b'd'
    then accepted (record p { options = record p.options { detach = true }; detach_set = true })
    else if o.opt == b'x'
    then accepted
        (record p { options = record p.options { resume_exec = some o.optarg }; exec_set = true })
    else if o.opt == 1
    then accepted (record p { options = record p.options { rm = true } })
    else if o.opt == b'V'
    then accepted (record p { log = log_set_level debug p.log })
    else if o.opt == b'q'
    then accepted (record p { log = log_enable false p.log })
    else if o.opt == b'L'
    then with_level p (parse_env_level (some o.optarg))
    else if o.opt == b'E'
    then accepted (record p { log = log_set_level info (log_set_educational true p.log) })
    else if o.opt == b'h'
    then exited asked_help
    else if o.opt == b'v'
    then exited asked_version
    else rejected

-- The loop.
unfoldable pub parse_opts : Parsed → List Opt → Parse Parsed
parse_opts p [] = accepted p
parse_opts p (o ∷ rest) = elim (parse_opt p o) [
  | rejected ↦ rejected
  | exited asked ↦ exited asked
  | accepted p' ↦ parse_opts p' rest
]

abbrev pub any_set : Parsed → Bool
any_set p = p.attach_set || p.detach_set || p.options.rm

-- The commands apart from `create` that take a container.
unfoldable pub is_command : CString → Bool
is_command command =
    str_eq command (bytes "start")
    || str_eq command (bytes "run")
    || str_eq command (bytes "exec")
    || str_eq command (bytes "resume")
    || str_eq command (bytes "delete")
    || str_eq command (bytes "state")

-- The checks of the command: whether they pass.
unfoldable pub is_valid_command : Parsed → Bool
is_valid_command p =
    let command = p.options.command in
    if str_eq command (bytes "create")
    then (if any_set p then false else is_some p.options.container_id)
    else if is_command command
    then (if not (is_some p.options.container_id)
        then false
        else if (str_eq command (bytes "delete")
              || str_eq command (bytes "state")
              || str_eq command (bytes "resume"))
            && any_set p
        then false
        else if p.exec_set
            && (not (str_eq command (bytes "exec")) && not (str_eq command (bytes "resume")))
        then false
        else true)
    else false

-- The defaults for attaching, by the command.
unfoldable pub settle : Parsed → Parse Parsed
settle p =
    let neither = not p.attach_set && not p.detach_set in
    if str_eq p.options.command (bytes "start")
    then (if p.options.rm
        then rejected
        else accepted
            (record p { options = record p.options { detach = neither || p.options.detach } }))
    else if str_eq p.options.command (bytes "run")
    then (if p.options.rm && p.options.detach
        then rejected
        else accepted
            (record p { options = record p.options { attach = neither || p.options.attach } }))
    else accepted
        (record p { options = record p.options { attach = false; detach = false; rm = false } })

-- The checks behind the loop.
unfoldable pub check_options : Parsed → Parse Parsed
check_options p =
    if p.attach_set && p.detach_set
    then rejected
    else if is_valid_command p
    then settle p
    else rejected

abbrev with_id : Parsed → Option CString → Parsed
with_id p id = record p { options = record p.options { container_id = id } }

unfoldable pub parse_command : Getopt → LogConfig → CString → List CString → Parse Parsed
parse_command g log command args =
    elim (parse_opts
      (record {
        options = default_options command;
        attach_set = false;
        detach_set = false;
        exec_set = false;
        log = log;
      })
      (g.opts args)) [
        | rejected ↦ rejected
        | exited asked ↦ exited asked
        | accepted p ↦ check_options (with_id p (g.rest args))
      ]

abbrev only : CString → LogConfig → Parse Parsed
only command log = accepted (record {
  options = default_options command;
  attach_set = false;
  detach_set = false;
  exec_set = false;
  log = log;
})

-- `nk_parse_args`, for the arguments without the name of the program
unfoldable pub parse_args : Getopt → LogConfig → List CString → Parse Parsed
parse_args g log [] = rejected
parse_args g log (command ∷ args) =
    if str_eq command (bytes "-h") || str_eq command (bytes "--help")
    then only (bytes "help") log
    else if str_eq command (bytes "-v") || str_eq command (bytes "--version")
    then only (bytes "version") log
    else parse_command g log command args
