-- ===== src/Common/Json.antt =====
-- Values of which the program knows no type (`unknown`): what JSON can hold, and undefined.
use Prim.Native.Nat.{ℕ, ◌^◌}
use Prim.Native.String.{String}
use mathlib.Core.Bool.{Bool, true, false, ◌||◌}
use mathlib.Core.Option.{Option, none, some}
use mathlib.Core.List.{List, [], ◌∷◌}
use kerf_app.Common.Tests.{if◌then◌else◌}
use kerf_app.Common.Equality.{number_eq, text_eq, ◌==◌}
use kerf_app.Common.Int.{leb_ℤ, ltb_ℤ, pos, ℤ}

-- A number is an integer, a fraction m / 2 ^ k with m odd and 0 < k, or it is not finite.
pub data Number : Type 0 where
  int : ℤ → Number
  fraction : ℤ → ℕ → Number
  not_finite : Number

mutual
  pub data Value : Type 0 where
    undefined : Value
    null : Value
    bool : Bool → Value
    num : Number → Value
    text : String → Value
    arr : Items → Value
    obj : Fields → Value

  pub data Items : Type 0 where
    nil : Items
    item : Value → Items → Items

  pub data Fields : Type 0 where
    end : Fields
    field : String → Value → Fields → Fields

abbrev pub values : Items → List Value
values nil = []
values (item v rest) = v ∷ values rest

abbrev find_field : String → Fields → Value
find_field key end = undefined
find_field key (field k v rest) = if k == key then v else find_field key rest

-- `(value as Record<string, unknown>)[key]`, for keys that an array does not have
abbrev pub member : Value → String → Value
member (obj fields) key = find_field key fields
member _ key = undefined

-- `typeof value === 'object' && value !== null`, which holds of an array too
abbrev pub is_object : Value → Bool
is_object (arr items) = true
is_object (obj fields) = true
is_object _ = false

-- `Array.isArray(value)`, with the elements
abbrev pub array : Value → Option (List Value)
array (arr items) = some (values items)
array _ = none

abbrev pub is_null : Value → Bool
is_null null = true
is_null _ = false

-- `typeof value === 'string'`, with the text
abbrev pub as_text : Value → Option String
as_text (text s) = some s
as_text _ = none

-- `typeof value === 'number' && Number.isFinite(value)`, with the number
abbrev pub as_finite : Value → Option Number
as_finite (num (int n)) = some (int n)
as_finite (num (fraction m k)) = some (fraction m k)
as_finite _ = none

-- A finite number above 0.
abbrev pub is_positive : Number → Bool
is_positive (int n) = ltb_ℤ (pos 0) n
is_positive (fraction m k) = ltb_ℤ (pos 0) m
is_positive not_finite = false

abbrev pub is_negative : Number → Bool
is_negative (int n) = ltb_ℤ n (pos 0)
is_negative (fraction m k) = ltb_ℤ m (pos 0)
is_negative not_finite = false

-- A finite number that is at most 1.
abbrev pub is_at_most_one : Number → Bool
is_at_most_one (int n) = leb_ℤ n (pos 1)
is_at_most_one (fraction m k) = leb_ℤ m (pos (2 ^ k))
is_at_most_one not_finite = false

abbrev has_field : String → Fields → Bool
has_field key end = false
has_field key (field k v rest) = k == key || has_field key rest

-- `key in value`, for keys that an array does not have
abbrev pub has_member : Value → String → Bool
has_member (obj fields) key = has_field key fields
has_member _ key = false
