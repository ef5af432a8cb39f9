-- ===== src/Proposal/Lines.antt =====
-- src/proposal/validation.ts: the checks of lines, sections and divisions. What the language says
-- of fractions is an argument: the product of a quantity and a price, rounded, and the text of a
-- value.
use kerf_app.Common.{
  Bool, List, Option, String, [], false, if◌then◌else◌, ltb, none, not, number_eq, some, suc,
  text_eq, ℕ, ◌++◌, ◌+◌, ◌==◌, ◌>?◌, ◌||◌, ◌∷◌,
}
use kerf_app.Common.Int.{negsuc, pos, ℤ}
use kerf_app.Common.Text.{codes, decimal, ◌+++◌}
use kerf_app.Common.Json.{Number, Value, array, as_finite, is_object, is_positive, member, text}
use kerf_app.Checks.Guards.{
  check_given, integer_cents, is_bool, is_nonempty_text, is_text, is_text_or_null, require,
  require_given, require_object, sum_cents, validate_each,
}
use kerf_app.Checks.Patterns.{is_csi_code_text}
use kerf_app.Proposal.Checks.{validate_provenance}

-- `Math.round(quantity * unitCents)` and `String(value)`
pub record Numerics : Type 0 where
  pub rounded_product : Number → ℕ → ℤ
  pub text_of : Value → String

-- The text of an integer.
unfoldable pub integer_text : ℤ → String
integer_text (pos n) = decimal n
integer_text (negsuc n) = "-" +++ decimal (suc n)

abbrev pub is_cents : ℕ → ℤ → Bool
is_cents n (pos m) = n == m
is_cents n (negsuc m) = false

unfoldable pub is_csi_division_code : Value → Bool
is_csi_division_code (text s) = is_csi_code_text (codes s)
is_csi_division_code _ = false

abbrev pub quantity_errors : Value → String → Bool → List String
quantity_errors qty path strict =
    require_given (as_finite qty) (path +++ ".quantity must be a finite number") (λ q.
      require (not strict || is_positive q)
        (path +++ ".quantity must be > 0 on accepted proposals"))

abbrev pub unit_errors : Value → String → Bool → List String
unit_errors unit path strict =
    require_given (integer_cents unit)
      (path +++ ".unit_cents must be a non-negative integer (cents)")
      (λ u.
        require (not strict || ltb 0 u) (path +++ ".unit_cents must be > 0 on accepted proposals"))

module _ (js : Numerics) where
  abbrev pub product_errors : Number → ℕ → ℕ → String → List String
  product_errors q u e path =
      let expected = js.rounded_product q u in
      require (is_cents e expected) (
        path
        +++ ".extended_cents ("
        +++ decimal e
        +++ ") must equal round(quantity × unit_cents) = "
        +++ integer_text expected)

  -- The check of the product waits for a quantity and a price that are themselves right.
  abbrev pub extended_errors : Value → Value → Value → String → List String
  extended_errors qty unit extended path =
      require_given (integer_cents extended)
        (path +++ ".extended_cents must be a non-negative integer (cents)")
        (λ e.
          check_given (as_finite qty)
            (λ q. check_given (integer_cents unit) (λ u. product_errors q u e path)))

  unfoldable pub validate_line : Bool → Value → String → List String
  validate_line strict value path = require_object value (path +++ " must be an object") (
      require (is_nonempty_text (member value "line_id"))
        (path +++ ".line_id must be a non-empty string")
      ++ (require (is_text (member value "description")) (path +++ ".description must be a string")
          ++ (quantity_errors (member value "quantity") path strict
              ++ (require (is_nonempty_text (member value "uom"))
                    (path +++ ".uom must be a non-empty string")
                  ++ (unit_errors (member value "unit_cents") path strict
                      ++ (extended_errors (member value "quantity") (member value "unit_cents")
                            (member value "extended_cents") path
                          ++ (require (is_text (member value "notes"))
                                (path +++ ".notes must be a string")
                              ++ (require (is_bool (member value "is_materials_taxable"))
                                    (path +++ ".is_materials_taxable must be a boolean")
                                  ++ validate_provenance (member value "scaffold_provenance")
                                      (path +++ ".scaffold_provenance")))))))))

  unfoldable pub validate_section : Bool → Value → String → List String
  validate_section strict value path = require_object value (path +++ " must be an object") (
      require (is_nonempty_text (member value "section_id"))
        (path +++ ".section_id must be a non-empty string")
      ++ (require (is_text_or_null (member value "label"))
            (path +++ ".label must be a string or null")
          ++ require_given (array (member value "lines")) (path +++ ".lines must be an array")
              (validate_each (validate_line strict) (path +++ ".lines") 0)))

-- The sum of the lines of the sections, if all of them can be read.
unfoldable pub sum_of_sections : List Value → Option ℕ
sum_of_sections [] = some 0
sum_of_sections (section ∷ rest) =
    let more = sum_of_sections rest in
    if is_object section
    then (array (member section "lines") >? sum_cents "extended_cents" >? λ a.
        more >? λ b. some (a + b))
    else none

abbrev pub subtotal_errors : Value → Value → String → List String
subtotal_errors subtotal sections path =
    require_given (integer_cents subtotal)
      (path +++ ".subtotal_cents must be a non-negative integer (cents)")
      (λ n. check_given (array sections >? sum_of_sections) (λ sum. require (sum == n) (
        path
        +++ ".subtotal_cents ("
        +++ decimal n
        +++ ") must equal sum of lines = "
        +++ decimal sum)))

module _ (js : Numerics) where
  unfoldable pub validate_division : Bool → Value → String → List String
  validate_division strict value path = require_object value (path +++ " must be an object") (
      require (is_csi_division_code (member value "code")) (
        path
        +++ ".code \""
        +++ js.text_of (member value "code")
        +++ "\" must be a 2-digit CSI division code")
      ++ (require (is_nonempty_text (member value "label"))
            (path +++ ".label must be a non-empty string")
          ++ (require_given (array (member value "sections"))
                (path +++ ".sections must be an array")
                (validate_each (validate_section js strict) (path +++ ".sections") 0)
              ++ subtotal_errors (member value "subtotal_cents") (member value "sections") path)))
