-- ===== src/Altitude/AuditTrail.antt =====
-- src/altitude/gate.ts: V12, the audit of the trail of the other validators' results.
use kerf_app.Common.{
  List, Option, String, [], if◌then◌else◌, includes, map, none, not, number_eq, some, text_eq, ℕ,
  ◌+◌, ◌==◌, ◌∷◌,
}
use kerf_app.Common.Int.{ltb_ℤ, pos, ℤ}
use kerf_app.Common.Text.{decimal, is_nonempty, ◌+++◌}
use kerf_app.Altitude.Types.{
  ValidatorId, ValidatorResult, flag_eq, id_text, role_visibility_eq, v1, v12, v17, v18, v2, v4, v6,
  v7, v8, v9, validator_id_eq,
}
use kerf_app.Altitude.Validators.{fail_result, pass_result}

abbrev pub expected_order : List ValidatorId
expected_order = v1 ∷ v2 ∷ v4 ∷ v6 ∷ v7 ∷ v8 ∷ v9 ∷ v17 ∷ v18 ∷ []

abbrev pub ids : List ValidatorResult → List ValidatorId
ids results = map (λ (r : ValidatorResult). r.validator_id) results

-- The five loops, each with the reason that it returns. `seen` is the set of the first.
unfoldable pub duplicate_reason : List ValidatorId → List ValidatorId → Option String
duplicate_reason seen [] = none
duplicate_reason seen (id ∷ rest) =
    let later = duplicate_reason (id ∷ seen) rest in
    if includes seen id then some ("audit_trail_duplicate: " +++ id_text id) else later

unfoldable pub missing_reason : List ValidatorId → List ValidatorId → Option String
missing_reason [] seen = none
missing_reason (expected ∷ rest) seen =
    let later = missing_reason rest seen in
    if includes seen expected
    then later
    else some ("audit_trail_incomplete: missing " +++ id_text expected)

unfoldable pub unexpected_reason : List ValidatorId → Option String
unexpected_reason [] = none
unexpected_reason (id ∷ rest) =
    let later = unexpected_reason rest in
    if includes expected_order id
    then later
    else some ("audit_trail_incomplete: unexpected " +++ id_text id)

abbrev out_of_order : ValidatorId → String → ℕ → String
out_of_order expected actual position =
    "audit_trail_out_of_order: expected "
    +++ id_text expected
    +++ "@"
    +++ decimal position
    +++ " got "
    +++ actual
    +++ "@"
    +++ decimal position

-- The fourth loop walks the expected order; `position` is `index + 1`.
unfoldable pub order_reason : ℕ → List ValidatorId → List ValidatorId → Option String
order_reason position [] actual = none
order_reason position (expected ∷ rest) [] = some (out_of_order expected "undefined" position)
order_reason position (expected ∷ rest) (actual ∷ others) =
    let later = order_reason (position + 1) rest others in
    if actual == expected then later else some (out_of_order expected (id_text actual) position)

-- Of the tests of `typeof` and `isFinite` those that a value of the type can fail are left.
unfoldable pub field_reason : List ValidatorResult → Option String
field_reason [] = none
field_reason (r ∷ rest) =
    let later = field_reason rest in
    if not (is_nonempty r.validator_name)
    then some ("audit_trail_field_missing: " +++ id_text r.validator_id +++ ".validator_name")
    else if ltb_ℤ r.duration_ms (pos 0)
    then some ("audit_trail_field_missing: " +++ id_text r.validator_id +++ ".duration_ms")
    else later

-- The first reason that is there.
infixr 30 ◌<|>◌
abbrev pub ◌<|>◌ : Option String → Option String → Option String
none <|> later = later
some reason <|> later = some reason

unfoldable pub validate_w1_audit_trail : List ValidatorResult → Option String
validate_w1_audit_trail results =
    duplicate_reason [] (ids results)
    <|> missing_reason expected_order (ids results)
    <|> unexpected_reason (ids results)
    <|> order_reason 1 expected_order (ids results)
    <|> field_reason results

abbrev pub v12_result : Option String → ℤ → ValidatorResult
v12_result none elapsed = pass_result v12 elapsed
v12_result (some reason) elapsed = fail_result v12 reason elapsed

unfoldable pub run_v12_audit_trail_completeness : List ValidatorResult → ℤ → ValidatorResult
run_v12_audit_trail_completeness results elapsed =
    v12_result (validate_w1_audit_trail results) elapsed
