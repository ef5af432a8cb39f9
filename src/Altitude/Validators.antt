-- ===== src/Altitude/Validators.antt =====
-- src/altitude/gate.ts: the validators V1, V2, V4, V6, V7 and V8.
-- Each takes the time that passed between its two readings of the clock as its argument `elapsed`,
-- which is negative where the clock was set back.
use kerf_app.Common.{
  Bool, List, Option, String, [], any, false, if◌then◌else◌, includes, is_empty, is_some, map, none,
  not, number_eq, or_else, some, text_eq, true, ◌&&◌, ◌>?◌, ◌||◌, ◌∷◌,
}
use kerf_app.Common.Int.{ltb_ℤ, pos, ℤ}
use kerf_app.Common.Text.{codes, contains, is_nonempty, to_lower, ◌+++◌}
use kerf_app.Altitude.Types.{
  AltitudeConfidenceBand, AltitudePacket, AltitudeRoleVisibility, ExternalSend, InferenceLabel,
  PricingSourceClass, PrivilegedMoneyField, RecordingConsentState, ValidatorFieldCorrection,
  ValidatorId, ValidatorResult, all_party_captured, ambiguous, band_high, client, consent_missing,
  consent_risk, direct_evidence, field, flag_eq, inferred, label_needs_review, missing, model_guess,
  model_inference, not_required, placeholder, role_visibility_eq, single_party, sub, unknown,
  unsupported, v1, v10, v11, v12, v13, v14, v15, v16, v17, v18, v2, v3, v4, v5, v6, v7, v8, v9,
  validator_id_eq,
}
use kerf_app.Altitude.Levels.{
  consent_state, in_two_party_jurisdiction, is_all_party, is_money_mutation, money_amount,
  recording_requested,
}

-- `VALIDATOR_NAMES`
abbrev pub validator_name_of : ValidatorId → String
validator_name_of v1 = "Pricing source class"
validator_name_of v2 = "External send approval"
validator_name_of v3 = "Quote expiration"
validator_name_of v4 = "California recording consent"
validator_name_of v5 = "Blackboard rail mapping"
validator_name_of v6 = "Role redaction / finance"
validator_name_of v7 = "Source basis required"
validator_name_of v8 = "Model inference labeling"
validator_name_of v9 = "Learning Signal creation"
validator_name_of v10 = "Memory promotion suggestion-only"
validator_name_of v11 = "BLS-as-wage-only"
validator_name_of v12 = "Audit trail completeness"
validator_name_of v13 = "Frontier escalation trigger"
validator_name_of v14 = "Pathway integrity"
validator_name_of v15 = "i18n parity"
validator_name_of v16 = "Sentry override audit"
validator_name_of v17 = "Token budget"
validator_name_of v18 = "Altitude assignment"

-- `...(options.reason ? { reason } : {})`: an empty text is left out
abbrev pub truthy : Option String → Option String
truthy none = none
truthy (some s) = if is_nonempty s then some s else none

unfoldable pub validator_result :
    ValidatorId
    → Bool
    → Bool
    → Option String
    → Option ValidatorFieldCorrection
    → ℤ
    → ValidatorResult
validator_result id passed critical reason corrected elapsed = record {
  validator_id = id;
  validator_name = validator_name_of id;
  passed = passed;
  critical = critical;
  reason = truthy reason;
  field_corrected = corrected;
  duration_ms = elapsed;
}

-- The two commonest results of a validator.
abbrev pub pass_result : ValidatorId → ℤ → ValidatorResult
pass_result id elapsed = validator_result id true false none none elapsed

abbrev pub fail_result : ValidatorId → String → ℤ → ValidatorResult
fail_result id reason elapsed = validator_result id false true (some reason) none elapsed

abbrev pub source_class_of : AltitudePacket → Option PricingSourceClass
source_class_of p = p.money_fields >? (λ m. m.source_class)

-- `sourceClass === undefined || 'placeholder' || 'unsupported' || 'missing'`
abbrev pub lacks_source_class : Option PricingSourceClass → Bool
lacks_source_class none = true
lacks_source_class (some placeholder) = true
lacks_source_class (some unsupported) = true
lacks_source_class (some missing) = true
lacks_source_class (some _) = false

-- The branch for review-only source classes returns what the last line returns.
unfoldable pub run_v1_pricing_source_class : AltitudePacket → ℤ → ValidatorResult
run_v1_pricing_source_class p elapsed =
    if ltb_ℤ (pos 0) (money_amount p) && lacks_source_class (source_class_of p)
    then fail_result v1 "pricing_source_class_invalid" elapsed
    else pass_result v1 elapsed

abbrev pub lacks_approval : Option ExternalSend → Bool
lacks_approval none = false
lacks_approval (some s) =
    s.requested && (not (is_some s.approved_by) || not (is_some s.approved_at))

unfoldable pub run_v2_external_send_approval : AltitudePacket → ℤ → ValidatorResult
run_v2_external_send_approval p elapsed =
    if lacks_approval p.external_send
    then fail_result v2 "external_send_approval_missing" elapsed
    else pass_result v2 elapsed

abbrev recording_action_verbs : List String
recording_action_verbs = "record" ∷ "capture audio" ∷ "transcribe" ∷ "log conversation" ∷ []

-- Only the letters A to Z are lowered: no other letter has a lower case that could complete one
-- of the four verbs.
unfoldable pub proposal_implies_recording : AltitudePacket → Bool
proposal_implies_recording p =
    let description = map to_lower (codes p.proposed_action.description) in
    any (λ verb. contains (codes verb) description) recording_action_verbs

abbrev consent_text : RecordingConsentState → String
consent_text not_required = "not_required"
consent_text single_party = "single_party"
consent_text all_party_captured = "all_party_captured"
consent_text consent_missing = "missing"
consent_text ambiguous = "ambiguous"
consent_text unknown = "unknown"

unfoldable pub run_v4_recording_consent : AltitudePacket → ℤ → ValidatorResult
run_v4_recording_consent p elapsed =
    let implies = proposal_implies_recording p in
    let captured = is_all_party (consent_state p) in
    if includes (or_else p.compliance_flags []) consent_risk && implies && not captured
    then fail_result v4 "recording_consent_risk_acknowledged_but_recommended" elapsed
    else if implies && not captured
    then fail_result v4 "recording_verb_without_all_party_consent" elapsed
    else if in_two_party_jurisdiction p.jurisdiction && recording_requested p && not captured
    then fail_result v4
        ("recording_consent_"
          +++ consent_text (or_else (consent_state p) consent_missing)
          +++ "_in_two_party_jurisdiction")
        elapsed
    else pass_result v4 elapsed

abbrev restricted_finance_roles : List AltitudeRoleVisibility
restricted_finance_roles = field ∷ sub ∷ client ∷ []

abbrev pub is_restricted_finance_role : AltitudeRoleVisibility → Bool
is_restricted_finance_role role = includes restricted_finance_roles role

abbrev pub privileged_fields_of : AltitudePacket → List PrivilegedMoneyField
privileged_fields_of p = or_else (p.money_fields >? (λ m. m.privileged_fields)) []

unfoldable pub run_v6_role_redaction :
    AltitudePacket → List AltitudeRoleVisibility → ℤ → ValidatorResult
run_v6_role_redaction p visibility elapsed =
    if not (is_empty (privileged_fields_of p)) && any is_restricted_finance_role visibility
    then fail_result v6 "privileged_finance_role_leak" elapsed
    else pass_result v6 elapsed

abbrev pub has_complete_source_basis : AltitudePacket → Bool
has_complete_source_basis p =
    not (is_empty p.source_refs) && not (is_empty p.evidence_ids) && not (is_empty p.claim_ids)

abbrev pub is_model_inference : Option PricingSourceClass → Bool
is_model_inference (some model_inference) = true
is_model_inference _ = false

unfoldable pub run_v7_source_basis_required : AltitudePacket → ℤ → ValidatorResult
run_v7_source_basis_required p elapsed =
    if not (has_complete_source_basis p)
      || (is_money_mutation p && is_model_inference (source_class_of p))
    then validator_result v7 false true (some "source_basis_required")
        (some (record {
          field = "status";
          from = some "READY_FOR_REVIEW";
          to = some "BLOCKED_PENDING_SOURCE";
        }))
        elapsed
    else pass_result v7 elapsed

abbrev is_inference_label : Option InferenceLabel → Bool
is_inference_label (some inferred) = true
is_inference_label (some model_guess) = true
is_inference_label (some label_needs_review) = true
is_inference_label _ = false

unfoldable pub has_model_inference_source : AltitudePacket → Bool
has_model_inference_source p =
    is_model_inference (source_class_of p) || is_inference_label p.model_inference_label

-- V8 on the label of a packet that rests on model inference
unfoldable pub v8_label : Option InferenceLabel → AltitudeConfidenceBand → ℤ → ValidatorResult
v8_label (some direct_evidence) band elapsed =
    fail_result v8 "model_inference_marked_direct_evidence" elapsed
v8_label none band elapsed =
    validator_result v8 true false none
      (some (record { field = "model_inference_label"; from = none; to = some "NEEDS_REVIEW" }))
      elapsed
v8_label (some label) band_high elapsed =
    validator_result v8 true false none
      (some (record {
        field = "classification.confidence_band";
        from = some "HIGH";
        to = some "MEDIUM";
      }))
      elapsed
v8_label (some label) _ elapsed = pass_result v8 elapsed

unfoldable pub run_v8_model_inference_labeling : AltitudePacket → ℤ → ValidatorResult
run_v8_model_inference_labeling p elapsed =
    if not (has_model_inference_source p)
    then pass_result v8 elapsed
    else v8_label p.model_inference_label p.classification.confidence_band elapsed
