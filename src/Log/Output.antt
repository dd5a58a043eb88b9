-- ===== src/Log/Output.antt =====
-- src/common/log.c: the text that a message is printed as, with the colours of a terminal and without
-- them. The arguments of a format are put into the text before (`vsnprintf`); a clock and `isatty` are
-- parameters.
use vibe_kata.Base.{
  ℕ, ◌+◌, ◌/◌, ◌%◌, Bool, true, false, Option, none, some, [], ◌∷◌, ◌++◌, if◌then◌else◌,
}
use vibe_kata.Base.Bytes.{CString, bytes, snprintf}
use vibe_kata.Base.Decimal.{decimal}
use vibe_kata.State.{Env}
use vibe_kata.Log.{
  LogLevel, debug, info, warn, error, LogRole, host, parent, child, LogConfig, log_basename, log_at,
  log_stderr_at,
}

unfoldable pub level_name : LogLevel → CString
level_name debug = bytes "DEBUG"
level_name info = bytes "INFO"
level_name warn = bytes "WARN"
level_name error = bytes "ERROR"

-- `\033[`
abbrev escape : CString → CString
escape s = 27 ∷ b'[' ∷ s

unfoldable pub level_color : LogLevel → CString
level_color debug = escape (bytes "0;36m")
level_color info = escape (bytes "0;32m")
level_color warn = escape (bytes "1;33m")
level_color error = escape (bytes "0;31m")

unfoldable pub role_name : LogRole → CString
role_name host = bytes "HOST"
role_name parent = bytes "PARENT"
role_name child = bytes "CHILD"

unfoldable pub role_color : LogRole → CString
role_color host = escape (bytes "0;37m")
role_color parent = escape (bytes "0;34m")
role_color child = escape (bytes "0;35m")

abbrev pub color_reset : CString
color_reset = escape (bytes "0m")

abbrev pub dim_gray : CString
dim_gray = escape (bytes "0;90m")

abbrev pub light_gray : CString
light_gray = escape (bytes "0;37m")

-- The local time, as `localtime_r` and `clock_gettime` give it.
pub record Clock : Type 0 where
  pub hour : ℕ
  pub min : ℕ
  pub sec : ℕ
  pub nsec : ℕ

-- `%02d` and `%03d`, of numbers that have no more digits
abbrev two_digits : ℕ → CString
two_digits n = (b'0' + n / 10 % 10) ∷ (b'0' + n % 10) ∷ []

abbrev three_digits : ℕ → CString
three_digits n = (b'0' + n / 100 % 10) ∷ two_digits n

unfoldable pub timestamp : Clock → CString
timestamp t = snprintf 64 (
    two_digits t.hour
    ++ (bytes ":"
        ++ (two_digits t.min
            ++ (bytes ":"
                ++ (two_digits t.sec ++ (bytes "." ++ three_digits (t.nsec / 1000000)))))))

-- `[%s:%d] `
abbrev place : Option CString → ℕ → CString
place file line = bytes "[" ++ (log_basename file ++ (bytes ":" ++ (decimal line ++ bytes "] ")))

abbrev colored : CString → CString → CString
colored color s = color ++ (s ++ color_reset)

-- `[%s%s%s] `, or `[%s] `
abbrev boxed : CString → CString
boxed s = bytes "[" ++ (s ++ bytes "] ")

abbrev role_box : Bool → LogRole → CString
role_box tty role =
    boxed (if tty then colored (role_color role) (role_name role) else role_name role)

-- The line that `nk_log_at` prints.
unfoldable pub log_line : Bool → Clock → LogRole → LogLevel → Option CString → ℕ → CString → CString
unfolding timestamp role_name role_color level_name level_color log_basename decimal
log_line tty now role level file line msg =
    let text = snprintf 1024 msg in
    let name = level_name level in
    if tty
    then dim_gray
      ++ (bytes "["
          ++ (timestamp now
              ++ (bytes "]"
                  ++ (color_reset
                      ++ (bytes " "
                          ++ (role_box true role
                              ++ (boxed (colored (level_color level) name)
                                  ++ (place file line
                                      ++ (color_reset
                                          ++ (text ++ (color_reset ++ bytes "\n")))))))))))
    else boxed (timestamp now)
      ++ (role_box false role ++ (boxed name ++ (place file line ++ (text ++ bytes "\n"))))

-- The line that `nk_log_explain_at` prints; `│` is three bytes in UTF-8.
unfoldable pub explain_line : Bool → LogRole → Option CString → ℕ → CString → CString
unfolding role_name role_color log_basename decimal
explain_line tty role file line explanation =
    let bar = bytes "      " ++ (0xE2 ∷ 0x94 ∷ 0x82 ∷ bytes " ") in
    if tty
    then dim_gray
      ++ (bar
          ++ (role_box true role
              ++ (place file line ++ (light_gray ++ (explanation ++ (color_reset ++ bytes "\n"))))))
    else bar ++ (role_box false role ++ (place file line ++ (explanation ++ bytes "\n")))

-- What `nk_log_stderr_at` prints.
unfoldable pub stderr_line : Bool → LogRole → Option CString → ℕ → CString → CString
unfolding role_name role_color log_basename decimal
stderr_line tty role file line text = role_box tty role ++ (place file line ++ text)

module _ (env : Env) (tty : Bool) where
  -- `nk_log_at`
  unfoldable pub print_at :
      Clock → LogLevel → Option CString → ℕ → CString → LogConfig → Option CString × LogConfig
  unfolding log_at log_line
  print_at now level file line msg l =
      let (printed, l') = log_at env level l in
      (if printed then some (log_line tty now l'.role level file line msg) else none, l')

  -- `nk_log_stderr_at`
  unfoldable pub print_stderr_at :
      Option CString → ℕ → CString → LogConfig → Option CString × LogConfig
  unfolding log_stderr_at stderr_line
  print_stderr_at file line text l =
      let (printed, l') = log_stderr_at env l in
      (if printed then some (stderr_line tty l'.role file line text) else none, l')
