-- ===== src/Log.antt =====
-- src/common/log.c: the configuration of the log, and whether a message is printed; `Output` and
-- `Notes` have the lines that are printed. src/main.c has a copy of the parser of levels.
pub mod Configured
pub mod Output
pub mod Notes
pub mod Plain
pub mod Colors
use vibe_kata.Base.{
  ℕ, Bool, true, false, Option, none, some, List, [], ◌∷◌, ◌==◌, ltb, ◌||◌, not, if◌then◌else◌,
}
use vibe_kata.Base.Bytes.{CString, bytes, str_eq, str_case_eq}
use vibe_kata.State.{Env}

-- `nk_log_level_t`
pub data LogLevel : Type 0 where
  debug info warn error : LogLevel

unfoldable pub level_number : LogLevel → ℕ
level_number debug = 0
level_number info = 1
level_number warn = 2
level_number error = 3

-- `nk_log_role_t`
pub data LogRole : Type 0 where
  host parent child : LogRole

-- The static variables of log.c.
pub record LogConfig : Type 0 where
  pub level : LogLevel
  pub enabled : Bool
  pub educational : Bool
  pub role : LogRole
  pub env_applied : Bool

abbrev pub initial : LogConfig
initial = record {
  level = info;
  enabled = true;
  educational = false;
  role = host;
  env_applied = false;
}

-- `nk_log_set_level`, `nk_log_enable`, `nk_log_set_educational`, `nk_log_set_role`
unfoldable pub log_set_level : LogLevel → LogConfig → LogConfig
log_set_level level l = record l { level = level }

unfoldable pub log_enable : Bool → LogConfig → LogConfig
log_enable enabled l = record l { enabled = enabled }

unfoldable pub log_set_educational : Bool → LogConfig → LogConfig
log_set_educational enabled l = record l { educational = enabled }

unfoldable pub log_set_role : LogRole → LogConfig → LogConfig
log_set_role role l = record l { role = role }

-- What stands behind the last slash: `strrchr(path, '/') + 1`, or the path.
unfoldable pub after_slash : CString → CString → CString
after_slash name [] = name
after_slash name (b ∷ rest) = if b == b'/' then after_slash rest rest else after_slash name rest

unfoldable pub log_basename : Option CString → CString
unfolding after_slash
log_basename none = bytes "?"
log_basename (some path) = after_slash path path

-- `nk_parse_env_bool`
unfoldable pub parse_env_bool : Option CString → Option Bool
parse_env_bool none = none
parse_env_bool (some value) =
    if str_eq value (bytes "1")
      || str_case_eq value (bytes "true")
      || str_case_eq value (bytes "yes")
      || str_case_eq value (bytes "on")
    then some true
    else if str_eq value (bytes "0")
        || str_case_eq value (bytes "false")
        || str_case_eq value (bytes "no")
        || str_case_eq value (bytes "off")
    then some false
    else none

-- `nk_parse_env_level`, and `parse_log_level` of src/main.c
unfoldable pub parse_env_level : Option CString → Option LogLevel
parse_env_level none = none
parse_env_level (some value) =
    if str_case_eq value (bytes "debug") || str_eq value (bytes "0")
    then some debug
    else if str_case_eq value (bytes "info") || str_eq value (bytes "1")
    then some info
    else if str_case_eq value (bytes "warn")
        || str_case_eq value (bytes "warning")
        || str_eq value (bytes "2")
    then some warn
    else if str_case_eq value (bytes "error") || str_eq value (bytes "3")
    then some error
    else none

abbrev or_old {ℓ} : {A : Type ℓ} → Option A → A → A
or_old none old = old
or_old (some new) old = new

-- `nk_log_apply_env`
unfoldable pub log_apply_env : Env → LogConfig → LogConfig
log_apply_env env l = if l.env_applied then l else record {
  level = or_old (parse_env_level (env.getenv (bytes "NK_LOG_LEVEL"))) l.level;
  enabled = or_old (parse_env_bool (env.getenv (bytes "NK_LOG_ENABLED"))) l.enabled;
  educational = or_old (parse_env_bool (env.getenv (bytes "NK_LOG_EDUCATIONAL"))) l.educational;
  role = l.role;
  env_applied = true;
}

-- `nk_log_at`: whether the message is printed, and the configuration from then on.
unfoldable pub log_at : Env → LogLevel → LogConfig → Bool × LogConfig
log_at env level l =
    let l' = log_apply_env env l in
    (
      if not l'.enabled
          then false
          else if ltb (level_number level) (level_number l'.level)
          then false
          else true,
      l',
    )

-- `nk_log_stderr_at`
unfoldable pub log_stderr_at : Env → LogConfig → Bool × LogConfig
log_stderr_at env l = let l' = log_apply_env env l in (l'.enabled, l')

-- `nk_log_explain_at`, for a message that has an explanation
unfoldable pub log_explain_at : Env → LogConfig → Bool × LogConfig
log_explain_at env l = let l' = log_apply_env env l in (l'.educational, l')
