-- ===== src/Lifecycle/CommandText.antt =====
-- The command line that `log_oci_start_summary` shows, in its buffer of 512 bytes.
use mathlib.Core.List.{append_assoc, append-nil}
use vibe_kata.Base.{
  ℕ, zero, suc, ◌+◌, ◌-◌, ◌≤◌, ◌<◌, ◌≡◌, refl, sym, ap, ◌∙◌, Bool, true, false, ◌==◌, List, [], ◌∷◌,
  ◌++◌, take, take-eq_self, length, length-append, Bool-cases, inl, inr, arith, leb, ltb,
}
use vibe_kata.Base.Bytes.{CString, bytes}
use vibe_kata.Oci.{Process}
use vibe_kata.Lifecycle.Summary.{args_read, fill_command, command_text, with_space}

-- The arguments behind the first, each after a space.
abbrev pub spaced : List CString → CString
spaced [] = []
spaced (arg ∷ rest) = (bytes " " ++ arg) ++ spaced rest

take-append_le : (n : ℕ) (s t : CString) → n ≤ length s → take n (s ++ t) ≡ take n s
take-append_le zero s t h = refl
take-append_le (suc n) [] t h = absurd (omega arith)
take-append_le (suc n) (b ∷ s) t h = ap (λ u. b ∷ u) (take-append_le n s t (omega arith))

take-append : (n : ℕ) (s t : CString) → length s ≤ n → take n (s ++ t) ≡ s ++ take (n - length s) t
take-append n [] t h = ap (λ m. take m t) (omega arith)
take-append zero (b ∷ s) t h = absurd (omega arith)
take-append (suc n) (b ∷ s) t h =
    ap (λ u. b ∷ u) (take-append n s t (omega arith) ∙ ap (λ m. s ++ take m t) (omega arith))

-- A round of the loop appends what fits of its text, and so does the loop if its other rounds do.
fill_command-step :
    (first : Bool) (arg cmd : CString) (rest : List CString)
    → length cmd ≤ 511
    → 0 < length (with_space first arg)
    → (length (cmd ++ with_space first arg) ≤ 511
        → fill_command false
            (length (cmd ++ with_space first arg))
            (cmd ++ with_space first arg)
            rest
          ≡ take 511 ((cmd ++ with_space first arg) ++ spaced rest))
    → fill_command first (length cmd) cmd (arg ∷ rest)
      ≡ take 511 (cmd ++ (with_space first arg ++ spaced rest))
unfolding fill_command
fill_command-step first arg cmd rest h some_text later =
    let text = with_space first arg in
    let all = text ++ spaced rest in
    let at = length cmd in
    let nonzero : (length text == 0) ≡ false = ground arith in
    rw (take-eq_self at cmd (omega arith)) (elim (Bool-cases (ltb at 511)) [
      | inr full ↦
          rw full (sym (take-append_le 511 cmd all (ground arith) ∙ take-eq_self 511 cmd h))
      | inl room ↦ elim (Bool-cases (leb (512 - at) (length text))) [
        | inl cut ↦
            let same : take (512 - at - 1) text ≡ take (511 - at) all =
              ap (λ n. take n text) (omega arith)
              ∙ sym (take-append_le (511 - at) text (spaced rest) (ground arith)) in
            rw room
              (rw nonzero (rw cut (ap (λ u. cmd ++ u) same ∙ sym (take-append 511 cmd all h))))
        | inr fits ↦
            let whole = take-eq_self (512 - at - 1) text (ground arith) in
            let sum : at + length text ≡ length (cmd ++ text) = sym (length-append cmd text) in
            rw room (
              rw nonzero (
                rw fits (
                  rw whole (
                    rw sum (
                      later (ground (arith, sum))
                      ∙ ap (λ u. take 511 u) (append_assoc cmd text (spaced rest)))))))
      ]
    ])

-- Once the loop has come behind the first argument, it appends what fits of the others.
fill_command-spaced :
    (args : List CString) (cmd : CString)
    → length cmd ≤ 511
    → fill_command false (length cmd) cmd args ≡ take 511 (cmd ++ spaced args)
unfolding fill_command
fill_command-spaced [] cmd h = sym (rw append-nil (take-eq_self 511 cmd h))
fill_command-spaced (arg ∷ rest) cmd h =
    fill_command-step false arg cmd rest h (omega arith)
      (fill_command-spaced rest (cmd ++ with_space false arg))

-- The arguments with spaces between them, as far as the buffer has room beside the NUL, but nothing if
-- the first of them is empty.
abbrev pub shown : List CString → CString
shown [] = []
shown ([] ∷ rest) = []
shown ((b ∷ s) ∷ rest) = take 511 ((b ∷ s) ++ spaced rest)

fill_command-shown : (args : List CString) → fill_command true 0 [] args ≡ shown args
unfolding fill_command
fill_command-shown [] = refl
fill_command-shown ([] ∷ rest) = refl
fill_command-shown ((b ∷ s) ∷ rest) =
    fill_command-step true (b ∷ s) [] rest (omega arith) (omega arith)
      (fill_command-spaced rest (b ∷ s))

-- The command line in the summary of a start is the arguments with a space between two, NULL as the
-- empty text, cut at the 511 bytes that the buffer holds beside its NUL; it is empty if there is no
-- argument or the first is empty.
pub command_text_lem : (p : Process) → command_text p ≡ shown (args_read p.args p.args_len)
unfolding command_text
command_text_lem p = fill_command-shown (args_read p.args p.args_len)
