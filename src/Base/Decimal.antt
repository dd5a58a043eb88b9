-- ===== src/Base/Decimal.antt =====
-- What `%d`, `%u` and `%lu` of <stdio.h> print, and what `strtol` of <stdlib.h> reads of it.
use Prim.Native.Nat.{ℕ, zero, suc, ◌+◌, ◌-◌, ◌*◌, ◌/◌, ◌%◌, ◌^◌, ◌≤◌, ◌<◌}
use mathlib.Core.Path.{◌≡◌, refl, ap, ◌∙◌}
use mathlib.Core.Logic.{inl, inr}
use mathlib.Core.Bool.{true, false, ◌&&◌}
use mathlib.Core.List.{[], ◌∷◌, ◌++◌}
use native.Mathlib.Omega.{arith}
use vibe_kata.Base.Tests.{leb, ◌==◌, if◌then◌else◌, Bool-cases}
use vibe_kata.Base.Lists.{length}
use vibe_kata.Base.Int.{ℤ, pos, negsuc, IsInt32}
use vibe_kata.Base.Bytes.{CString}

-- The digits of a number, least first, before those of `acc`.
unfoldable pub decimal_from : ℕ → ℕ → CString → CString
decimal_from zero n acc = acc
decimal_from (suc fuel) n acc =
    let digits = (b'0' + n % 10) ∷ acc in
    let rest = decimal_from fuel (n / 10) digits in if n / 10 == 0 then digits else rest

unfoldable pub decimal : ℕ → CString
unfolding decimal_from
decimal n = decimal_from (suc n) n []

unfoldable pub decimal_int : ℤ → CString
unfolding decimal
decimal_int (pos n) = decimal n
decimal_int (negsuc n) = b'-' ∷ decimal (suc n)

-- The number of the digits that a text begins with, behind the digits read.
abbrev digits_value : ℕ → CString → ℕ
digits_value n [] = n
digits_value n (b ∷ s) =
    let rest = digits_value (n * 10 + (b - b'0')) s in if leb b'0' b && leb b b'9' then rest else n

abbrev negate : ℕ → ℤ
negate zero = pos zero
negate (suc n) = negsuc n

-- `strtol(s, NULL, 10)`, for a text without spaces and `+` in front
abbrev pub int_value : CString → ℤ
int_value [] = pos 0
int_value (b ∷ s) = if b == b'-' then negate (digits_value 0 s) else pos (digits_value 0 (b ∷ s))

digits_value-digit :
    (m d : ℕ) (s : CString) → d < 10 → digits_value m ((b'0' + d) ∷ s) ≡ digits_value (m * 10 + d) s
digits_value-digit m d s h =
    let digit : (leb b'0' (b'0' + d) && leb (b'0' + d) b'9') ≡ true = ground arith in
    rw digit (ap (λ k. digits_value k s) (omega arith))

digits_value-decimal_from :
    (fuel n : ℕ) (acc : CString)
    → n < fuel
    → digits_value 0 (decimal_from fuel n acc) ≡ digits_value n acc
unfolding decimal_from
digits_value-decimal_from zero n acc h = absurd (omega arith)
digits_value-decimal_from (suc fuel) n acc h = elim (Bool-cases (n / 10 == 0)) [
  | inl last ↦ rw last (
      digits_value-digit 0 (n % 10) acc (omega arith) ∙ ap (λ m. digits_value m acc) (ground arith))
  | inr more ↦ rw more (
      digits_value-decimal_from fuel (n / 10) ((b'0' + n % 10) ∷ acc) (ground arith)
      ∙ digits_value-digit (n / 10) (n % 10) acc (omega arith)
      ∙ ap (λ m. digits_value m acc) (omega arith))
]

int_value-decimal_from :
    (fuel n : ℕ) (acc : CString)
    → n < fuel
    → int_value (decimal_from fuel n acc) ≡ pos (digits_value n acc)
unfolding decimal_from
int_value-decimal_from zero n acc h = absurd (omega arith)
int_value-decimal_from (suc fuel) n acc h = elim (Bool-cases (n / 10 == 0)) [
  | inl last ↦
      let digit : ((b'0' + n % 10) == b'-') ≡ false = ground arith in
      rw last (
        rw digit (
          ap pos (
            digits_value-digit 0 (n % 10) acc (omega arith)
            ∙ ap (λ m. digits_value m acc) (ground arith))))
  | inr more ↦ rw more (
      int_value-decimal_from fuel (n / 10) ((b'0' + n % 10) ∷ acc) (ground arith)
      ∙ ap pos (
          digits_value-digit (n / 10) (n % 10) acc (omega arith)
          ∙ ap (λ m. digits_value m acc) (omega arith)))
]

append-decimal_from :
    (fuel n : ℕ) (acc s : CString) → decimal_from fuel n acc ++ s ≡ decimal_from fuel n (acc ++ s)
unfolding decimal_from
append-decimal_from zero n acc s = refl
append-decimal_from (suc fuel) n acc s = elim (Bool-cases (n / 10 == 0)) [
  | inl last ↦ rw last refl
  | inr more ↦ rw more (append-decimal_from fuel (n / 10) ((b'0' + n % 10) ∷ acc) s)
]

-- The text of an integer, read again, is the integer.
pub int_value-decimal_int : (z : ℤ) → int_value (decimal_int z) ≡ z
unfolding decimal_int decimal
int_value-decimal_int (pos n) = int_value-decimal_from (suc n) n [] (omega arith)
int_value-decimal_int (negsuc n) =
    ap negate (digits_value-decimal_from (suc (suc n)) (suc n) [] (omega arith))

-- So is the text of an integer on a line.
pub int_value-decimal_line : (z : ℤ) → int_value (decimal_int z ++ (10 ∷ [])) ≡ z
unfolding decimal_int decimal
int_value-decimal_line (pos n) =
    rw (append-decimal_from (suc n) n [] (10 ∷ []))
      (int_value-decimal_from (suc n) n (10 ∷ []) (omega arith))
int_value-decimal_line (negsuc n) =
    rw (append-decimal_from (suc (suc n)) (suc n) [] (10 ∷ []))
      (ap negate (digits_value-decimal_from (suc (suc n)) (suc n) (10 ∷ []) (omega arith)))

-- A number below 10 ^ (d + 1) has at most d + 1 digits.
length-decimal_from :
    (d fuel n : ℕ) (acc : CString)
    → n < 10 ^ suc d
    → length (decimal_from fuel n acc) ≤ suc d + length acc
unfolding decimal_from
length-decimal_from d zero n acc h = omega arith
length-decimal_from zero (suc fuel) n acc h =
    let last : (n / 10 == 0) ≡ true = ground arith in rw last (omega arith)
length-decimal_from (suc d) (suc fuel) n acc h = elim (Bool-cases (n / 10 == 0)) [
  | inl last ↦ rw last (omega arith)
  | inr more ↦
      rw more
        (omega (arith, length-decimal_from d fuel (n / 10) ((b'0' + n % 10) ∷ acc) (ground arith)))
]

-- A `pid_t` takes at most eleven characters.
pub length-decimal_int : (z : ℤ) → IsInt32 z → length (decimal_int z) ≤ 11
unfolding decimal_int decimal
length-decimal_int (pos n) h = omega (arith, length-decimal_from 9 (suc n) n [] (omega arith))
length-decimal_int (negsuc n) h =
    omega (arith, length-decimal_from 9 (suc (suc n)) (suc n) [] (omega arith))
