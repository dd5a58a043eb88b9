-- ===== src/Log/Configured.antt =====
-- How the options and the environment set the level of the log.
use vibe_kata.Base.{◌≡◌, refl, true, false, some, arith, ◌≤◌, ◌↔◌, ◌∷◌, ◌++◌, [], All, ◌≢◌}
use vibe_kata.Base.Bytes.{CString, bytes}
use vibe_kata.State.{Env}
use vibe_kata.Log.{
  LogLevel, level_number, LogConfig, log_set_level, log_apply_env, log_at, parse_env_level,
  parse_env_bool, log_basename, after_slash,
}

-- The environment is read once: a level that is set after it has been read stays, whatever the
-- environment holds by then.
pub log_apply_env_once :
    (env env' : Env) (level : LogLevel) (l : LogConfig)
    → log_apply_env env' (log_set_level level (log_apply_env env l))
      ≡ log_set_level level (log_apply_env env l)
unfolding log_apply_env log_set_level
log_apply_env_once env env' level l = ground arith

-- A level that an option has set before the first message has no effect where NK_LOG_LEVEL names a
-- level and NK_LOG_ENABLED is true: a message is printed exactly when it reaches the level of the
-- environment.
pub log_at-log_set_level :
    (env : Env) (asked set level : LogLevel) (l : LogConfig)
    → l.env_applied ≡ false
    → parse_env_level (env.getenv (bytes "NK_LOG_LEVEL")) ≡ some set
    → parse_env_bool (env.getenv (bytes "NK_LOG_ENABLED")) ≡ some true
    → ((log_at env level (log_set_level asked l)).0 ≡ true)
      ↔ (level_number set ≤ level_number level)
unfolding log_at log_apply_env log_set_level
log_at-log_set_level env asked set level l first named on = ground arith

after_slash-plain : (name s : CString) → All (λ b. b ≢ b'/') s → after_slash name s ≡ name
unfolding after_slash
after_slash-plain name [] h = refl
after_slash-plain name (b ∷ s) h = ground (arith, after_slash-plain name s h.1)

after_slash-append :
    (name dir s : CString) → All (λ b. b ≢ b'/') s → after_slash name (dir ++ (b'/' ∷ s)) ≡ s
unfolding after_slash
after_slash-append name [] s h = after_slash-plain s s h
after_slash-append name (b ∷ dir) s h =
    ground (arith, after_slash-append name dir s h, after_slash-append (dir ++ (b'/' ∷ s)) dir s h)

-- The name that a message gives of a file is what stands behind the last slash of its path, for a
-- path that has one.
pub log_basename_lem :
    (dir s : CString) → All (λ b. b ≢ b'/') s → log_basename (some (dir ++ (b'/' ∷ s))) ≡ s
unfolding log_basename
log_basename_lem dir s h = after_slash-append (dir ++ (b'/' ∷ s)) dir s h
