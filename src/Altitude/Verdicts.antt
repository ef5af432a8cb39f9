-- ===== src/Altitude/Verdicts.antt =====
-- When each validator of src/altitude/gate.ts passes, stated without the validator.
use kerf_app.Common.{
  All, List, Option, String, [], any, arith, false, none, or_else, some, true, ℕ, ◌<◌, ◌↔◌, ◌∷◌,
  ◌≡◌, ◌≢◌, ◌≤◌, ◌⊎◌,
}
use kerf_app.Common.Int.{pos, ℤ, ◌≤ℤ◌}
use kerf_app.Common.Text.{is_nonempty}
use kerf_app.Altitude.Types.{
  AltitudePacket, AltitudeRoleVisibility, ExternalSend, PricingSourceClass, all_party_captured,
  client, direct_evidence, field, missing, model_inference, placeholder, sub, unsupported,
}
use kerf_app.Altitude.Levels.{
  altitude_rank, consent_state, in_two_party_jurisdiction, is_money_mutation, money_amount,
  recording_requested,
}
use kerf_app.Altitude.Validators.{
  has_model_inference_source, is_restricted_finance_role, privileged_fields_of,
  proposal_implies_recording, run_v1_pricing_source_class, run_v2_external_send_approval,
  run_v4_recording_consent, run_v6_role_redaction, run_v7_source_basis_required,
  run_v8_model_inference_labeling, source_class_of, v8_label, validator_result,
}
use kerf_app.Altitude.BudgetValidators.{
  TokenBudgetOptions, run_v17_token_budget_check, total_for_gate,
}
use kerf_app.Altitude.Learning.{LearningSignalDraft}

-- An amount of money has a source class that may price it.
abbrev pub IsPriced : AltitudePacket → Type 0
IsPriced p =
    (money_amount p ≤ℤ pos 0)
    ⊎ ((c : PricingSourceClass) × (source_class_of p ≡ some c)
        × (c ≢ placeholder)
        × (c ≢ unsupported)
        × (c ≢ missing))

-- Who approved an external send, and when, is on record.
abbrev pub HasApproval : ExternalSend → Type 0
HasApproval s =
    ((who : String) × (s.approved_by ≡ some who)) × ((day : String) × (s.approved_at ≡ some day))

abbrev pub IsApproved : Option ExternalSend → Type 0
IsApproved none = Unit
IsApproved (some s) = (s.requested ≡ false) ⊎ HasApproval s

-- All parties consented, or nothing is recorded that would need it.
abbrev pub HasConsent : AltitudePacket → Type 0
HasConsent p =
    (consent_state p ≡ some all_party_captured)
    ⊎ ((proposal_implies_recording p ≡ false)
        × ((recording_requested p ≡ false) ⊎ (in_two_party_jurisdiction p.jurisdiction ≡ false)))

abbrev pub SeesFinance : AltitudeRoleVisibility → Type 0
SeesFinance role = (role ≢ field) × (role ≢ sub) × (role ≢ client)

abbrev pub IsRedacted : AltitudePacket → List AltitudeRoleVisibility → Type 0
IsRedacted p visibility = (privileged_fields_of p ≡ []) ⊎ All SeesFinance visibility

abbrev pub HasSources : AltitudePacket → Type 0
HasSources p =
    (p.source_refs ≢ [])
    × (p.evidence_ids ≢ [])
    × (p.claim_ids ≢ [])
    × ((is_money_mutation p ≡ false) ⊎ (source_class_of p ≢ some model_inference))

abbrev pub IsLabelled : AltitudePacket → Type 0
IsLabelled p =
    (source_class_of p ≢ some model_inference) ⊎ (p.model_inference_label ≢ some direct_evidence)

abbrev pub IsWithin : ℕ → Option ℕ → Type 0
IsWithin n none = Unit
IsWithin n (some limit) = n ≤ limit

abbrev pub IsWithinBudget : AltitudePacket → TokenBudgetOptions → Type 0
IsWithinBudget p options =
    IsWithin (total_for_gate p) options.per_action_token_cap
    × ((1 < altitude_rank p.model_suggested_altitude)
        ⊎ IsWithin (or_else p.token_usage.estimated_input_tokens p.token_usage.input_tokens)
            options.low_altitude_compact_prompt_threshold)

-- There is no draft of a learning signal, or each carries its packet, its model and its date.
abbrev pub HasSignalBasis : AltitudePacket → String → List LearningSignalDraft → Type 0
HasSignalBasis p evaluated_at drafts =
    (drafts ≡ [])
    ⊎ ((is_nonempty p.packet_id ≡ true)
        × (is_nonempty evaluated_at ≡ true)
        × (is_nonempty p.source_model ≡ true))

pub v1_passes :
    (p : AltitudePacket) (t : ℤ) → ((run_v1_pricing_source_class p t).passed ≡ true) ↔ IsPriced p
unfolding run_v1_pricing_source_class validator_result
v1_passes p t = ground arith

pub v2_passes :
    (p : AltitudePacket) (t : ℤ)
    → ((run_v2_external_send_approval p t).passed ≡ true) ↔ IsApproved p.external_send
unfolding run_v2_external_send_approval validator_result
v2_passes p t = ground arith

pub v4_passes :
    (p : AltitudePacket) (t : ℤ) → ((run_v4_recording_consent p t).passed ≡ true) ↔ HasConsent p
unfolding run_v4_recording_consent validator_result
v4_passes p t = ground arith

restricted_lem :
    (visibility : List AltitudeRoleVisibility)
    → (any is_restricted_finance_role visibility ≡ false) ↔ All SeesFinance visibility
restricted_lem [] = ground arith
restricted_lem (r ∷ rs) = ground (arith, restricted_lem rs)

pub v6_passes :
    (p : AltitudePacket) (visibility : List AltitudeRoleVisibility) (t : ℤ)
    → ((run_v6_role_redaction p visibility t).passed ≡ true) ↔ IsRedacted p visibility
unfolding run_v6_role_redaction validator_result
v6_passes p visibility t = ground (arith, restricted_lem visibility)

pub v7_passes :
    (p : AltitudePacket) (t : ℤ) → ((run_v7_source_basis_required p t).passed ≡ true) ↔ HasSources p
unfolding run_v7_source_basis_required validator_result
v7_passes p t = ground arith

pub v8_passes :
    (p : AltitudePacket) (t : ℤ)
    → ((run_v8_model_inference_labeling p t).passed ≡ true) ↔ IsLabelled p
unfolding run_v8_model_inference_labeling v8_label has_model_inference_source validator_result
v8_passes p t = ground arith

pub v17_passes :
    (p : AltitudePacket) (options : TokenBudgetOptions) (t : ℤ)
    → ((run_v17_token_budget_check p options t).passed ≡ true) ↔ IsWithinBudget p options
unfolding run_v17_token_budget_check validator_result
v17_passes p options t = ground arith
