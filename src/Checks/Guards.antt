-- ===== src/Checks/Guards.antt =====
-- The guards with which src/proposal/validation.ts and src/persistence/events.ts check values of no
-- known type. A check returns its errors.
use kerf_app.Common.{
  Bool, List, Option, String, [], all, false, if◌then◌else◌, includes, is_some, none, not,
  number_eq, or_else, some, suc, text_eq, true, ℕ, ◌++◌, ◌+◌, ◌==◌, ◌>?◌, ◌||◌, ◌∷◌,
}
use kerf_app.Common.Int.{pos}
use kerf_app.Common.Text.{codes, decimal, is_nonempty, ◌+++◌}
use kerf_app.Common.Json.{
  Value, array, as_finite, as_text, bool, int, is_negative, is_null, is_object, member, num, text,
  undefined,
}
use kerf_app.Checks.Patterns.{is_iso8601_text}

-- The value itself, or what is wrong with it.
pub data ValidationResult : Type 0 where
  valid : Value → ValidationResult
  invalid : List String → ValidationResult

abbrev pub is_array : Value → Bool
is_array v = is_some (array v)

-- `if (!holds) errors.push(message)`
unfoldable pub require : Bool → String → List String
require true message = []
require false message = message ∷ []

-- The errors of what is given, and an error or none where nothing is.
unfoldable pub require_given : {A : Type 0} → Option A → String → (A → List String) → List String
require_given none message check = message ∷ []
require_given (some a) message check = check a

unfoldable pub check_given : {A : Type 0} → Option A → (A → List String) → List String
check_given none check = []
check_given (some a) check = check a

-- The errors of an object, and one error of anything else.
unfoldable pub require_object : Value → String → List String → List String
require_object value message errors = if is_object value then errors else message ∷ []

abbrev pub is_nonempty_text : Value → Bool
is_nonempty_text (text s) = is_nonempty s
is_nonempty_text _ = false

-- `nonEmptyString`, with the text
abbrev pub nonempty_string : Value → Option String
nonempty_string v = if is_nonempty_text v then as_text v else none

unfoldable pub is_iso8601 : Value → Bool
is_iso8601 (text s) = is_iso8601_text (codes s)
is_iso8601 _ = false

-- `isIntegerCents`, with the number
abbrev pub integer_cents : Value → Option ℕ
integer_cents (num (int (pos n))) = some n
integer_cents _ = none

abbrev pub is_text : Value → Bool
is_text v = is_some (as_text v)

abbrev pub is_bool : Value → Bool
is_bool (bool b) = true
is_bool _ = false

unfoldable pub is_string_array : Value → Bool
is_string_array v = or_else (array v >? λ vs. some (all is_text vs)) false

abbrev pub is_text_or_null : Value → Bool
is_text_or_null v = is_null v || is_text v

-- A text out of a set: two errors, one for no text and one for a text that the set does not have.
unfoldable pub require_one_of : Value → List String → String → (String → String) → List String
require_one_of v allowed no_text unknown =
    require_given (nonempty_string v) no_text (λ s. require (includes allowed s) (unknown s))

-- `value === word`
abbrev pub is_word : Value → String → Bool
is_word (text s) word = s == word
is_word _ word = false

-- The checks of the elements of an array, each under its index.
unfoldable pub validate_each :
    (Value → String → List String) → String → ℕ → List Value → List String
validate_each check path i [] = []
validate_each check path i (v ∷ rest) =
    check v (path +++ "[" +++ decimal i +++ "]") ++ validate_each check path (suc i) rest

-- The sum of an amount over the elements of an array, if each is an object that has it.
unfoldable pub sum_cents : String → List Value → Option ℕ
sum_cents key [] = some 0
sum_cents key (v ∷ rest) =
    let more = sum_cents key rest in
    if is_object v then (integer_cents (member v key) >? λ a. more >? λ b. some (a + b)) else none

-- A finite number that is not negative.
abbrev pub is_unsigned : Value → Bool
is_unsigned v = or_else (as_finite v >? λ q. some (not (is_negative q))) false

abbrev pub is_undefined : Value → Bool
is_undefined undefined = true
is_undefined _ = false

abbrev pub is_true : Value → Bool
is_true (bool b) = b
is_true _ = false

abbrev pub is_false : Value → Bool
is_false (bool b) = not b
is_false _ = false

-- The errors of all checks, in their order.
unfoldable pub errors_of : List (List String) → List String
errors_of [] = []
errors_of (errors ∷ rest) = errors ++ errors_of rest
