-- ===== src/Log/Colors.antt =====
-- What the log prints to a terminal and what it prints elsewhere.
use mathlib.Core.Option
use vibe_kata.Base.{
  ℕ, ◌≡◌, refl, ap, Bool, true, false, Option, none, some, List, [], ◌∷◌, All, Option-cases,
  Bool-cases, inl, inr, arith,
}
use vibe_kata.Base.Bytes.{CString}
use vibe_kata.State.{Env}
use vibe_kata.Log.{LogLevel, LogConfig, log_at, log_stderr_at, log_explain_at}
use vibe_kata.Log.Output.{Clock, print_at, print_stderr_at}
use vibe_kata.Log.Notes.{Note, educational_notes, find_note, explanation_of, print_explain_at}
use vibe_kata.Log.Plain.{
  strip, is_plain, is_plain_name, strip-log_line, strip-explain_line, strip-stderr_line,
}

-- The text is plain where there is one.
abbrev pub is_plain_text : Option CString → Bool
is_plain_text none = true
is_plain_text (some s) = is_plain s

is_plain_text-find_note :
    (what : CString) (notes : List Note)
    → All (λ n. is_plain n.explanation ≡ true) notes
    → is_plain_text (find_note what notes) ≡ true
unfolding find_note
is_plain_text-find_note what [] h = refl
is_plain_text-find_note what (n ∷ rest) h =
    ground (arith, h.0, is_plain_text-find_note what rest h.1)

notes_plain : All (λ n. is_plain n.explanation ≡ true) educational_notes
unfolding educational_notes
notes_plain = (
  refl,
  (
    refl,
    (
      refl,
      (refl, (refl, (refl, (refl, (refl, (refl, (refl, (refl, (refl, (refl, (refl, tt))))))))))),
    ),
  ),
)

is_plain_text-explanation_of :
    (what : CString) (why : Option CString)
    → is_plain_text why ≡ true
    → is_plain_text (explanation_of what why) ≡ true
unfolding explanation_of
is_plain_text-explanation_of what (some s) h = h
is_plain_text-explanation_of what none h =
    is_plain_text-find_note what educational_notes notes_plain

module _ (env : Env) (file : Option CString) (line : ℕ) (named : is_plain_name file ≡ true) where
  strip-print_at :
      (now : Clock) (level : LogLevel) (msg : CString) (l : LogConfig)
      → is_plain msg ≡ true
      → Option.map strip (print_at env true now level file line msg l).0
        ≡ (print_at env false now level file line msg l).0
  unfolding print_at
  strip-print_at now level msg l plain = elim (Bool-cases (log_at env level l).0) [
    | inl printed ↦
        rw printed
          (ap some (strip-log_line (log_at env level l).1.role file line msg named plain now level))
    | inr quiet ↦ rw quiet refl
  ]

  strip-print_stderr_at :
      (text : CString) (l : LogConfig)
      → is_plain text ≡ true
      → Option.map strip (print_stderr_at env true file line text l).0
        ≡ (print_stderr_at env false file line text l).0
  unfolding print_stderr_at
  strip-print_stderr_at text l plain = elim (Bool-cases (log_stderr_at env l).0) [
    | inl printed ↦
        rw printed
          (ap some (strip-stderr_line (log_stderr_at env l).1.role file line text named plain))
    | inr quiet ↦ rw quiet refl
  ]

  strip-print_explain_at :
      (what : CString) (why : Option CString) (l : LogConfig)
      → is_plain_text why ≡ true
      → Option.map strip (print_explain_at env true file line what why l).0
        ≡ (print_explain_at env false file line what why l).0
  unfolding print_explain_at
  strip-print_explain_at what why l plain = elim (Bool-cases (log_explain_at env l).0) [
    | inr quiet ↦ rw quiet refl
    | inl printed ↦ rw printed (elim (Option-cases (explanation_of what why)) [
      | inl missing ↦ rw missing refl
      | inr (s, found) ↦ rw found (
          ap some (
            strip-explain_line (log_explain_at env l).1.role file line s named
              (ground (arith, found, is_plain_text-explanation_of what why plain))))
    ])
  ]

  -- What `nk_log_at`, `nk_log_stderr_at` and `nk_log_explain_at` print to a terminal is, without
  -- its escape sequences, what they print elsewhere. This is for a file name, a message and an
  -- explanation that hold no escape character.
  pub terminal_same :
      (now : Clock) (level : LogLevel) (msg : CString) (l : LogConfig) (what : CString)
      (why : Option CString)
      → is_plain msg ≡ true
      → is_plain_text why ≡ true
      → (Option.map strip (print_at env true now level file line msg l).0
          ≡ (print_at env false now level file line msg l).0)
        × (Option.map strip (print_stderr_at env true file line msg l).0
            ≡ (print_stderr_at env false file line msg l).0)
        × (Option.map strip (print_explain_at env true file line what why l).0
            ≡ (print_explain_at env false file line what why l).0)
  terminal_same now level msg l what why plain plain_why = (
    strip-print_at now level msg l plain,
    strip-print_stderr_at msg l plain,
    strip-print_explain_at what why l plain_why,
  )
