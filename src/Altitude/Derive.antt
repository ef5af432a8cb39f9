-- ===== src/Altitude/Derive.antt =====
-- src/altitude/gate.ts: what the policy gate derives from an altitude and the validators' results.
use kerf_app.Common.{
  Bool, List, Option, String, [], any, false, if◌then◌else◌, includes, is_empty, none, not,
  number_eq, some, text_eq, true, ◌==◌, ◌∷◌,
}
use kerf_app.Common.Text.{codes, contains}
use kerf_app.Altitude.Types.{
  AltitudeLevel, AltitudePacket, ReviewRequirement, SafeNextAction, ValidatorId, ValidatorResult,
  allow_commit, allow_draft, allow_internal_summary, autonomous, block_external_send,
  block_pricing_use, block_promotion, block_recording, block_role_visibility, block_token_budget,
  block_with_remediation, flag_eq, frontier_review, l0, l1, l2, l3, l4, operator_review,
  owner_review, request_frontier_review, request_human_review, request_owner_approval,
  role_visibility_eq, v1, v12, v17, v2, v4, v6, v7, v8, v9, validator_id_eq,
}
use kerf_app.Altitude.Levels.{AltitudeAssignmentResult, external_send_requested}
use kerf_app.Altitude.Learning.{level_text}

unfoldable pub derive_review_requirement : AltitudeLevel → AltitudePacket → ReviewRequirement
derive_review_requirement l4 p = frontier_review
derive_review_requirement l3 p = owner_review
derive_review_requirement l2 p = operator_review
derive_review_requirement _ p = if external_send_requested p then operator_review else autonomous

abbrev pub needs_approval : ReviewRequirement → Bool
needs_approval autonomous = false
needs_approval _ = true

-- The branch for critical failures, in the order of its tests.
unfoldable pub critical_action : List ValidatorId → SafeNextAction
critical_action failures =
    if includes failures v4
    then block_recording
    else if includes failures v2
    then block_external_send
    else if includes failures v1
    then block_pricing_use
    else if includes failures v6
    then block_role_visibility
    else if includes failures v7
    then block_promotion
    else if includes failures v8
    then request_human_review
    else if includes failures v9
    then request_human_review
    else if includes failures v17
    then block_token_budget
    else if includes failures v12
    then request_human_review
    else block_with_remediation

abbrev pub approval_action : AltitudeLevel → SafeNextAction
approval_action l4 = request_frontier_review
approval_action l3 = request_owner_approval
approval_action _ = request_human_review

abbrev pub autonomous_action : AltitudeLevel → SafeNextAction
autonomous_action l0 = allow_commit
autonomous_action l1 = allow_internal_summary
autonomous_action _ = allow_draft

unfoldable pub names_compact_prompt : String → Bool
names_compact_prompt reason = contains (codes "compact_prompt_required") (codes reason)

unfoldable pub derive_safe_next_action :
    Bool → List ValidatorId → List String → Bool → AltitudeLevel → SafeNextAction
unfolding names_compact_prompt
derive_safe_next_action allowed failures reasons approval final =
    if not (is_empty failures)
    then critical_action failures
    else if not allowed
    then (if any names_compact_prompt reasons then block_with_remediation else request_human_review)
    else if approval
    then approval_action final
    else autonomous_action final

-- `fields[name] = value`
assign_field :
    String
    → Option String
    → Option String
    → List (String × Option String × Option String)
    → List (String × Option String × Option String)
assign_field name from to [] = (name, from, to) ∷ []
assign_field name from to ((key, was, now) ∷ rest) =
    if key == name
    then (name, from, to) ∷ rest
    else (key, was, now) ∷ assign_field name from to rest

assign_corrections :
    List (String × Option String × Option String)
    → List ValidatorResult
    → List (String × Option String × Option String)
assign_corrections fields [] = fields
assign_corrections fields (r ∷ rest) = elim r.field_corrected [
  | none ↦ assign_corrections fields rest
  | some c ↦ assign_corrections (assign_field c.field c.from c.to fields) rest
]

unfoldable pub derive_corrected_fields :
    AltitudeAssignmentResult → List ValidatorResult → List (String × Option String × Option String)
unfolding assign_corrections assign_field
derive_corrected_fields a results =
    assign_corrections
      (("system_baseline_altitude", none, some (level_text a.system_baseline_altitude))
        ∷ ("system_final_altitude", none, some (level_text a.system_final_altitude))
        ∷ [])
      results
