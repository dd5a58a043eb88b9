-- ===== src/Base/Bytes.antt =====
-- C strings: the bytes before the terminating NUL, and the functions of <string.h>, <strings.h> and
-- <stdio.h> that the program applies to them. A `char *` that may be NULL is an `Option CString`.
use Prim.Native.Nat.{ℕ, ◌+◌, ◌-◌, ◌<◌}
use Prim.Native.Char.{code}
use Prim.Native.String.{String}
use mathlib.Core.Path.{◌≡◌, refl}
use mathlib.Core.Logic.{◌↔◌}
use mathlib.Core.Bool.{Bool, true, false, ◌&&◌}
use mathlib.Core.Option.{Option, none, some}
use mathlib.Core.List.{List, [], ◌∷◌, ◌++◌, map}
use native.Mathlib.Omega.{arith}
use vibe_kata.Base.Tests.{leb, ◌==◌, if◌then◌else◌}
use vibe_kata.Base.Lists.{take, take-eq_self, length}

abbrev pub CString : Type 0
CString = List ℕ

-- The bytes of an ASCII literal.
abbrev pub bytes : String → CString
bytes String.[] = []
bytes (String.◌∷◌ c s) = code c ∷ bytes s

-- `strcmp(s, t) == 0`
unfoldable pub str_eq : CString → CString → Bool
str_eq [] [] = true
str_eq [] (b ∷ t) = false
str_eq (a ∷ s) [] = false
str_eq (a ∷ s) (b ∷ t) = (a == b) && str_eq s t

pub str_eq_iff : (s t : CString) → (str_eq s t ≡ true) ↔ (s ≡ t)
unfolding str_eq
str_eq_iff [] [] = ground arith
str_eq_iff [] (b ∷ t) = ground arith
str_eq_iff (a ∷ s) [] = ground arith
str_eq_iff (a ∷ s) (b ∷ t) = ground (arith, str_eq_iff s t)

pub str_eq_refl : (s : CString) → str_eq s s ≡ true
str_eq_refl s = (str_eq_iff s s).1 refl

-- `tolower` of the C locale
unfoldable pub tolower : ℕ → ℕ
tolower b = if leb b'A' b && leb b b'Z' then b + 32 else b

-- `strcasecmp(s, t) == 0`
unfoldable pub str_case_eq : CString → CString → Bool
unfolding tolower
str_case_eq s t = str_eq (map tolower s) (map tolower t)

-- `s && s[0] != '\0'`
abbrev pub nonempty : Option CString → Bool
nonempty none = false
nonempty (some []) = false
nonempty (some (b ∷ s)) = true

-- What `snprintf(buf, size, ...)` leaves in `buf`, of the whole text.
abbrev pub snprintf : ℕ → CString → CString
snprintf size s = take (size - 1) s

pub snprintf-eq_self : (size : ℕ) (s : CString) → length s < size → snprintf size s ≡ s
snprintf-eq_self size s h = take-eq_self (size - 1) s (omega arith)

pub append_cancel_left : (p s t : CString) → p ++ s ≡ p ++ t → s ≡ t
append_cancel_left [] s t h = h
append_cancel_left (b ∷ p) s t h = append_cancel_left p s t (cc)
