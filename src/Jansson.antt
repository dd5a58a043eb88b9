-- ===== src/Jansson.antt =====
-- libjansson, which reads and writes JSON for the program: an interface over its values `J` and the
-- texts `T` of files. A `json_t *` that may be NULL is an `Option J`.
pub mod Value
use vibe_kata.Base.{◌≡◌, Bool, true, Option, some, List, All, is_some, ℕ, ◌<◌, if◌then◌else◌}
use vibe_kata.Base.Int.{ℤ}
use vibe_kata.Base.Bytes.{CString, str_eq}

-- The bytes of text that is valid UTF-8 in any case.
abbrev pub IsAscii : ℕ → Type 0
IsAscii b = b < 128

pub record Jansson (J T : Type 0) : Type 0 where
  pub object : J  -- `json_object()`
  -- `json_string(s)`, NULL where `s` is not valid UTF-8
  pub string : CString → Option J
  pub integer : ℤ → J
  -- `json_object_set_new`, which does nothing with a NULL value; the program ignores its result
  pub object_set_new : J → CString → Option J → J
  pub object_get : J → CString → Option J
  pub is_object : J → Bool
  -- `json_is_string(j)` and `json_string_value(j)`
  pub string_value : J → Option CString
  -- `json_is_integer(j)` and `json_integer_value(j)`
  pub integer_value : J → Option ℤ
  pub is_true : J → Bool
  -- `json_is_array(j)` and its elements
  pub array : J → Option (List J)
  -- the members that `json_object_foreach` visits, in its order
  pub members : J → List (CString × J)
  -- `json_dumpf` and `json_loadf`, apart from the file
  pub dumps : J → Option T
  pub loads : T → Option J

-- What its documentation says of objects with scalar members.
pub record IsLawful {J T : Type 0} (js : Jansson J T) : Type 0 where
  pub is_object-object : js.is_object js.object ≡ true
  pub is_object-set :
      (o : J) (k : CString) (v : Option J)
      → js.is_object o ≡ true
      → js.is_object (js.object_set_new o k v) ≡ true
  pub get-set :
      (o : J) (k j : CString) (v : J)
      → js.is_object o ≡ true
      → js.object_get (js.object_set_new o k (some v)) j
        ≡ (if str_eq k j then some v else js.object_get o j)
  pub string_of_ascii : (s : CString) → All IsAscii s → is_some (js.string s) ≡ true
  pub string_value-string :
      (s : CString) {j : J} → js.string s ≡ some j → js.string_value j ≡ some s
  -- The strings of a value are valid UTF-8.
  pub string_of_value :
      (j : J) {s : CString} → js.string_value j ≡ some s → is_some (js.string s) ≡ true
  pub integer_value-integer : (z : ℤ) → js.integer_value (js.integer z) ≡ some z
  -- Reading what was written gives back the value, as `json_equal` compares values.
  pub loads-dumps : (o : J) {t : T} → js.dumps o ≡ some t → js.loads t ≡ some o
