-- ===== src/Log/Plain.antt =====
-- The colours of a message: they are all that a terminal gets beside the text.
use vibe_kata.Base.{
  ℕ, zero, suc, ◌+◌, ◌/◌, ◌%◌, ◌≡◌, refl, sym, ap, ◌∙◌, Bool, true, false, not, Option, none, some,
  [], ◌∷◌, ◌++◌, take, ◌==◌, ◌&&◌, arith, if◌then◌else◌,
}
use mathlib.Core.List.{append_assoc, append-nil}
use vibe_kata.Base.Bytes.{CString, bytes, snprintf}
use vibe_kata.Base.Decimal.{decimal, decimal_from}
use vibe_kata.Log.{
  LogLevel, debug, info, warn, error, LogRole, host, parent, child, log_basename, after_slash,
}
use vibe_kata.Log.Output.{
  level_name, level_color, role_name, role_color, Clock, timestamp, color_reset, dim_gray,
  light_gray, log_line, explain_line, stderr_line,
}

-- A text without its escape sequences, which end with an `m`; the flag says that one is open.
unfoldable strip_from : Bool → CString → CString
strip_from true [] = []
strip_from false [] = []
strip_from true (b ∷ s) =
    let inside = strip_from true s in
    let behind = strip_from false s in if b == b'm' then behind else inside
strip_from false (b ∷ s) =
    let inside = strip_from true s in
    let behind = strip_from false s in if b == 27 then inside else b ∷ behind

unfoldable pub strip : CString → CString
unfolding strip_from
strip s = strip_from false s

-- No escape sequence begins in the text.
abbrev pub is_plain : CString → Bool
is_plain [] = true
is_plain (b ∷ s) = not (b == 27) && is_plain s

is_plain-append : (s t : CString) → is_plain s ≡ true → is_plain t ≡ true → is_plain (s ++ t) ≡ true
is_plain-append [] t h h' = h'
is_plain-append (b ∷ s) t h h' = ground (arith, is_plain-append s t (ground arith) h')

is_plain-take : (n : ℕ) (s : CString) → is_plain s ≡ true → is_plain (take n s) ≡ true
is_plain-take zero s h = refl
is_plain-take (suc n) [] h = refl
is_plain-take (suc n) (b ∷ s) h = ground (arith, is_plain-take n s (ground arith))

is_plain-after_slash :
    (name s : CString)
    → is_plain name ≡ true
    → is_plain s ≡ true
    → is_plain (after_slash name s) ≡ true
unfolding after_slash
is_plain-after_slash name [] h h' = h
is_plain-after_slash name (b ∷ s) h h' = ground (
  arith,
  is_plain-after_slash s s (ground arith) (ground arith),
  is_plain-after_slash name s h (ground arith),
)

is_plain-decimal_from :
    (fuel n : ℕ) (acc : CString) → is_plain acc ≡ true → is_plain (decimal_from fuel n acc) ≡ true
unfolding decimal_from
is_plain-decimal_from zero n acc h = h
is_plain-decimal_from (suc fuel) n acc h =
    ground (arith, is_plain-decimal_from fuel (n / 10) ((b'0' + n % 10) ∷ acc) (ground arith))

-- A file name that stands in a message has no escape.
abbrev pub is_plain_name : Option CString → Bool
is_plain_name none = true
is_plain_name (some path) = is_plain path

is_plain-log_basename :
    (file : Option CString) → is_plain_name file ≡ true → is_plain (log_basename file) ≡ true
unfolding log_basename
is_plain-log_basename none h = refl
is_plain-log_basename (some path) h = is_plain-after_slash path path h h

is_plain-decimal : (n : ℕ) → is_plain (decimal n) ≡ true
unfolding decimal
is_plain-decimal n = is_plain-decimal_from (suc n) n [] refl

is_plain-timestamp : (t : Clock) → is_plain (timestamp t) ≡ true
unfolding timestamp
is_plain-timestamp t = ground arith

-- A text without escapes goes through unchanged, and what follows it is stripped.
strip-plain : (s t : CString) → is_plain s ≡ true → strip (s ++ t) ≡ s ++ strip t
unfolding strip strip_from
strip-plain [] t h = refl
strip-plain (b ∷ s) t h = ground (arith, strip-plain s t (ground arith))

strip-level_color : (level : LogLevel) (s : CString) → strip (level_color level ++ s) ≡ strip s
unfolding level_color strip strip_from
strip-level_color debug s = refl
strip-level_color info s = refl
strip-level_color warn s = refl
strip-level_color error s = refl

strip-role_color : (role : LogRole) (s : CString) → strip (role_color role ++ s) ≡ strip s
unfolding role_color strip strip_from
strip-role_color host s = refl
strip-role_color parent s = refl
strip-role_color child s = refl

is_plain-level_name : (level : LogLevel) → is_plain (level_name level) ≡ true
unfolding level_name
is_plain-level_name debug = refl
is_plain-level_name info = refl
is_plain-level_name warn = refl
is_plain-level_name error = refl

is_plain-role_name : (role : LogRole) → is_plain (role_name role) ≡ true
unfolding role_name
is_plain-role_name host = refl
is_plain-role_name parent = refl
is_plain-role_name child = refl

strip-level_name :
    (level : LogLevel) (s : CString) → strip (level_name level ++ s) ≡ level_name level ++ strip s
strip-level_name level s = strip-plain (level_name level) s (is_plain-level_name level)

strip-role_name :
    (role : LogRole) (s : CString) → strip (role_name role ++ s) ≡ role_name role ++ strip s
strip-role_name role s = strip-plain (role_name role) s (is_plain-role_name role)

strip-timestamp : (t : Clock) (s : CString) → strip (timestamp t ++ s) ≡ timestamp t ++ strip s
strip-timestamp t s = strip-plain (timestamp t) s (is_plain-timestamp t)

strip-decimal : (n : ℕ) (s : CString) → strip (decimal n ++ s) ≡ decimal n ++ strip s
strip-decimal n s = strip-plain (decimal n) s (is_plain-decimal n)

strip-open_bracket : (s : CString) → strip (b'[' ∷ s) ≡ b'[' ∷ strip s
strip-open_bracket s = strip-plain (bytes "[") s refl

strip-close_bracket : (s : CString) → strip (b']' ∷ s) ≡ b']' ∷ strip s
strip-close_bracket s = strip-plain (bytes "]") s refl

strip-space : (s : CString) → strip (b' ' ∷ s) ≡ b' ' ∷ strip s
strip-space s = strip-plain (bytes " ") s refl

strip-colon : (s : CString) → strip (b':' ∷ s) ≡ b':' ∷ strip s
strip-colon s = strip-plain (bytes ":") s refl

strip-newline : (s : CString) → strip (10 ∷ s) ≡ 10 ∷ strip s
strip-newline s = strip-plain (bytes "\n") s refl

strip-bar : (s : CString) → strip (0xE2 ∷ 0x94 ∷ 0x82 ∷ s) ≡ 0xE2 ∷ 0x94 ∷ 0x82 ∷ strip s
strip-bar s = strip-plain (0xE2 ∷ 0x94 ∷ 0x82 ∷ []) s refl

strip-color_reset : (s : CString) → strip (color_reset ++ s) ≡ strip s
unfolding strip strip_from
strip-color_reset s = refl

strip-dim_gray : (s : CString) → strip (dim_gray ++ s) ≡ strip s
unfolding strip strip_from
strip-dim_gray s = refl

strip-light_gray : (s : CString) → strip (light_gray ++ s) ≡ strip s
unfolding strip strip_from
strip-light_gray s = refl

strip-nil : strip [] ≡ []
unfolding strip strip_from
strip-nil = refl

ruleset stripping = (
  append_assoc, strip-nil, strip-open_bracket, strip-close_bracket, strip-space, strip-colon,
  strip-newline, strip-bar, strip-color_reset, strip-dim_gray, strip-light_gray, strip-level_color,
  strip-role_color, strip-level_name, strip-role_name, strip-timestamp, strip-decimal,
)

module _ (role : LogRole) (file : Option CString) (line : ℕ) (text : CString)
    (named : is_plain_name file ≡ true) (plain : is_plain text ≡ true) where
  strip-log_basename : (s : CString) → strip (log_basename file ++ s) ≡ log_basename file ++ strip s
  strip-log_basename s = strip-plain (log_basename file) s (is_plain-log_basename file named)

  strip-text : (s : CString) → strip (text ++ s) ≡ text ++ strip s
  strip-text s = strip-plain text s plain

  strip-whole : strip text ≡ text
  strip-whole = ap strip (sym (append-nil text)) ∙ strip-text [] ∙ simp (strip-nil, append-nil)

  strip-cut_text : (s : CString) → strip (snprintf 1024 text ++ s) ≡ snprintf 1024 text ++ strip s
  strip-cut_text s = strip-plain (snprintf 1024 text) s (is_plain-take 1023 text plain)

  pub strip-log_line :
      (now : Clock) (level : LogLevel)
      → strip (log_line true now role level file line text)
        ≡ log_line false now role level file line text
  unfolding log_line
  strip-log_line now level = simp (stripping, strip-log_basename, strip-cut_text)

  pub strip-explain_line :
      strip (explain_line true role file line text) ≡ explain_line false role file line text
  unfolding explain_line
  strip-explain_line = simp (stripping, strip-log_basename, strip-text)

  -- The text of `nk_stderr` ends the line.
  pub strip-stderr_line :
      strip (stderr_line true role file line text) ≡ stderr_line false role file line text
  unfolding stderr_line
  strip-stderr_line = simp (stripping, strip-log_basename, strip-whole)
