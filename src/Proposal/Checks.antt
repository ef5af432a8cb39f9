-- ===== src/Proposal/Checks.antt =====
-- src/proposal/validation.ts: the checks of actors, clients and provenance.
use kerf_app.Common.{List, String, [], if◌then◌else◌, ◌++◌, ◌∷◌}
use kerf_app.Common.Text.{◌+++◌}
use kerf_app.Common.Json.{Value, is_null, member}
use kerf_app.Checks.Guards.{
  is_nonempty_text, is_string_array, is_text_or_null, require, require_object, require_one_of,
}

abbrev pub valid_actor_roles : List String
valid_actor_roles = "owner" ∷ "estimator" ∷ "pm" ∷ "field_super" ∷ "office" ∷ []

unfoldable pub validate_actor : Value → String → List String
validate_actor value field_path = require_object value (field_path +++ " must be an object") (
    require (is_nonempty_text (member value "id")) (field_path +++ ".id must be a non-empty string")
    ++ require_one_of (member value "role") valid_actor_roles
        (field_path +++ ".role must be a non-empty string")
        (λ s. field_path +++ ".role \"" +++ s +++ "\" is not a recognized role"))

unfoldable pub validate_designer : Value → List String
validate_designer dor =
    if is_null dor
    then []
    else require_object dor "client.designer_of_record must be an object or null" (
        require (is_nonempty_text (member dor "name"))
          "client.designer_of_record.name must be a non-empty string"
        ++ require (is_nonempty_text (member dor "firm"))
            "client.designer_of_record.firm must be a non-empty string")

unfoldable pub validate_client : Value → List String
validate_client value = require_object value "client must be an object" (
    require (is_nonempty_text (member value "name")) "client.name must be a non-empty string"
    ++ (require (is_string_array (member value "address_lines"))
          "client.address_lines must be an array of strings"
        ++ (require (is_text_or_null (member value "contact_email"))
              "client.contact_email must be a string or null"
            ++ (require (is_text_or_null (member value "contact_phone"))
                  "client.contact_phone must be a string or null"
                ++ validate_designer (member value "designer_of_record")))))

unfoldable pub validate_provenance : Value → String → List String
validate_provenance value field_path =
    if is_null value
    then []
    else require_object value (field_path +++ " must be an object or null") (
        require (is_nonempty_text (member value "scaffold_id"))
          (field_path +++ ".scaffold_id must be a non-empty string")
        ++ (require (is_nonempty_text (member value "scaffold_line_id"))
              (field_path +++ ".scaffold_line_id must be a non-empty string")
            ++ (require (is_nonempty_text (member value "quantity_basis"))
                  (field_path +++ ".quantity_basis must be a non-empty string")
                ++ require (is_nonempty_text (member value "materials_basis"))
                    (field_path +++ ".materials_basis must be a non-empty string"))))
