-- ===== src/Jansson/Value.antt =====
-- JSON values as a data type, with texts that are the values themselves. They show that the laws can
-- hold, and run the concrete examples.
use vibe_kata.Base.{
  ap, is_some, Bool-cases, inl, inr, ◌≡◌, refl, Bool, true, false, Option, none, some, List, [],
  ◌∷◌, ◌&&◌, arith, ltb, All, if◌then◌else◌,
}
use mathlib.Core.Option.{some-injective}
use vibe_kata.Base.Int.{ℤ}
use vibe_kata.Base.Bytes.{CString, str_eq}
use vibe_kata.Jansson.{IsAscii, Jansson, IsLawful}

mutual
  pub data Value : Type 0 where
    null : Value
    boolean : Bool → Value
    number : ℤ → Value
    text : CString → Value
    arr : Items → Value
    obj : Fields → Value

  pub data Items : Type 0 where
    nil : Items
    cons : Value → Items → Items

  pub data Fields : Type 0 where
    end : Fields
    field : CString → Value → Fields → Fields

items : Items → List Value
items nil = []
items (cons v vs) = v ∷ items vs

fields : Fields → List (CString × Value)
fields end = []
fields (field k v fs) = (k, v) ∷ fields fs

get : Fields → CString → Option Value
get end j = none
get (field k v fs) j = if str_eq k j then some v else get fs j

set_new : Value → CString → Option Value → Value
set_new (obj fs) k (some v) = obj (field k v fs)
set_new o k v = o

object_get : Value → CString → Option Value
object_get (obj fs) k = get fs k
object_get _ k = none

is_object : Value → Bool
is_object (obj fs) = true
is_object _ = false

-- Bytes from 128 on stand for text that is not valid UTF-8.
ascii : CString → Bool
ascii [] = true
ascii (b ∷ s) = ltb b 128 && ascii s

string_value : Value → Option CString
string_value (text s) = if ascii s then some s else none
string_value _ = none

integer_value : Value → Option ℤ
integer_value (number z) = some z
integer_value _ = none

is_true : Value → Bool
is_true (boolean b) = b
is_true _ = false

array : Value → Option (List Value)
array (arr vs) = some (items vs)
array _ = none

members : Value → List (CString × Value)
members (obj fs) = fields fs
members _ = []

unfoldable pub json_values : Jansson Value Value
unfolding set_new object_get get is_object string_value integer_value is_true array members items
    fields ascii
json_values = record {
  object = obj end;
  string = λ s. if ascii s then some (text s) else none;
  integer = number;
  object_set_new = set_new;
  object_get = object_get;
  is_object = is_object;
  string_value = string_value;
  integer_value = integer_value;
  is_true = is_true;
  array = array;
  members = members;
  dumps = some;
  loads = some;
}

get-set_new :
    (o : Value) (k j : CString) (v : Value)
    → is_object o ≡ true
    → object_get (set_new o k (some v)) j ≡ (if str_eq k j then some v else object_get o j)
unfolding json_values
get-set_new (obj fs) k j v h = refl
get-set_new _ k j v h = cc

is_object-set_new :
    (o : Value) (k : CString) (v : Option Value)
    → is_object o ≡ true
    → is_object (set_new o k v) ≡ true
unfolding json_values
is_object-set_new (obj fs) k (some v) h = refl
is_object-set_new _ k v h = ground arith

ascii_of_All : (s : CString) → All IsAscii s → ascii s ≡ true
unfolding json_values
ascii_of_All [] h = refl
ascii_of_All (b ∷ s) h = ground (arith, ascii_of_All s h.1)

string_value_of :
    (s : CString) {v : Value} → json_values.string s ≡ some v → string_value v ≡ some s
unfolding json_values
string_value_of s {v} h = elim (Bool-cases (ascii s)) [
  | inl is_ascii ↦ (let e : text s ≡ v = ground (arith, is_ascii, h) in rw (← e) (rw is_ascii))
  | inr not_ascii ↦ absurd (ground (arith, not_ascii))
]

string_of_value :
    (v : Value) {s : CString} → string_value v ≡ some s → is_some (json_values.string s) ≡ true
unfolding json_values
string_of_value (text t) {s} h = ground (arith, ap ascii (some-injective t s (ground arith)))
string_of_value _ h = cc

pub json_values-IsLawful : IsLawful json_values
unfolding json_values
json_values-IsLawful = record {
  is_object-object = refl;
  is_object-set = is_object-set_new;
  get-set = get-set_new;
  string_of_ascii = λ s h. rw (ascii_of_All s h);
  string_value-string = λ s {j} h. string_value_of s h;
  string_of_value = λ j {s} h. string_of_value j h;
  integer_value-integer = λ z. refl;
  loads-dumps = λ o {t} h. ground arith;
}
