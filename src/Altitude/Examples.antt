-- ===== src/Altitude/Examples.antt =====
-- The policy gate of src/altitude/gate.ts on concrete packets.
use kerf_app.Common.{
  List, Member, [], if◌then◌else◌, none, number_eq, refl, some, text_eq, true, ◌==◌, ◌↔◌, ◌∷◌, ◌≡◌,
  ◌≢◌, ◌⊎◌,
}
use kerf_app.Common.Int.{negsuc, pos}
use kerf_app.Common.Text.{decimal}
use kerf_app.Altitude.Types.{
  AltitudePacket, ExternalSend, SafeNextAction, ValidatorResult, allow_internal_summary,
  altitude_divergence, band_medium, block_promotion, block_recording, blocked_pending_source,
  draft_internal_summary, email, flag_eq, invoice_followup, l0, l1, model_inference_correction,
  normal, ready_for_review, request_frontier_review, request_human_review, request_owner_approval,
  role_visibility_eq, source_basis_required, v6, validator_id_eq,
}
use kerf_app.Altitude.Levels.{
  action_baseline, altitude_rank, assign_altitude, classify_divergence, derive_escalation_floor,
  derive_system_baseline_altitude, is_money_mutation, max_altitude, requires_two_party_consent,
  workflow_baseline,
}
use kerf_app.Altitude.Assignment.{Diverges, assign_altitude_ignores_model, system_rank}
use kerf_app.Altitude.Validators.{
  has_model_inference_source, pass_result, proposal_implies_recording, run_v1_pricing_source_class,
  run_v2_external_send_approval, run_v4_recording_consent, run_v6_role_redaction,
  run_v7_source_basis_required, run_v8_model_inference_labeling, v8_label, validator_result,
}
use kerf_app.Altitude.BudgetValidators.{run_v17_token_budget_check, run_v18_altitude_assignment}
use kerf_app.Altitude.Learning.{
  build_learning_signal_drafts, correction_drafts, divergence_drafts, learning_signal_draft,
  malformed_reason, run_v9_learning_signal_creation, source_basis_drafts,
  validate_learning_signal_draft,
}
use kerf_app.Altitude.AuditTrail.{
  duplicate_reason, field_reason, missing_reason, order_reason, run_v12_audit_trail_completeness,
  unexpected_reason, validate_w1_audit_trail,
}
use kerf_app.Altitude.AuditReasons.{Reports, validate_w1_audit_trail-Reports}
use kerf_app.Altitude.Verdicts.{HasApproval, HasSources}
use kerf_app.Altitude.Derive.{
  critical_action, derive_corrected_fields, derive_review_requirement, derive_safe_next_action,
}
use kerf_app.Altitude.Gate.{
  blocked_reasons_of, critical_failures_of, evaluate, evaluated_at_of, gate_result,
  role_visibility_of, run_policy_gate, token_budget_of,
}
use kerf_app.Altitude.GateTypes.{GateClock, PolicyGateOptions}
use kerf_app.Altitude.GateLaws.{IsCleared, run_policy_gate-allowed_iff}
use kerf_app.Altitude.Precedence.{Answers}
use kerf_app.Altitude.Answers.{run_policy_gate-Answers}
use kerf_app.Altitude.Safety.{run_policy_gate-external_send, run_policy_gate-status}
use kerf_app.Altitude.Signals.{IsCorrected, reasons_of, run_policy_gate-learning_signals}

-- Opens the gate with all that it calls.
gate : Unit {0}
unfolding run_policy_gate gate_result evaluate critical_failures_of blocked_reasons_of
    evaluated_at_of role_visibility_of token_budget_of derive_safe_next_action
    derive_corrected_fields critical_action derive_review_requirement run_v1_pricing_source_class
    run_v2_external_send_approval run_v4_recording_consent proposal_implies_recording
    run_v6_role_redaction run_v7_source_basis_required run_v8_model_inference_labeling
    has_model_inference_source v8_label run_v9_learning_signal_creation build_learning_signal_drafts
    correction_drafts source_basis_drafts divergence_drafts learning_signal_draft
    validate_learning_signal_draft malformed_reason run_v12_audit_trail_completeness
    validate_w1_audit_trail duplicate_reason missing_reason unexpected_reason order_reason
    field_reason run_v17_token_budget_check run_v18_altitude_assignment validator_result
    assign_altitude derive_system_baseline_altitude derive_escalation_floor classify_divergence
    max_altitude is_money_mutation requires_two_party_consent workflow_baseline action_baseline
    decimal
gate = tt

abbrev invoice : AltitudePacket
invoice = record {
  packet_id = "pkt_1";
  event_id = "evt_1";
  tenant_id = "tenant_ggr";
  project_id = some "project_1";
  workflow = invoice_followup;
  classification = record { intent = "follow up"; urgency = normal; confidence_band = band_medium };
  extracted_facts = [];
  proposed_action = record {
    type = draft_internal_summary;
    description = "Summarise the overdue invoice.";
    reason = "invoice is overdue";
  };
  model_suggested_altitude = l1;
  model_suggested_blackboard_rail = none;
  model_inference_label = none;
  money_fields = none;
  external_send = none;
  recording_intent = none;
  compliance_flags = none;
  jurisdiction = some "US-CA";
  source_refs = "doc" ∷ [];
  evidence_ids = "ev_1" ∷ [];
  claim_ids = "claim_1" ∷ [];
  source_model = "model";
  token_usage = record {
    estimated_input_tokens = none;
    estimated_output_tokens = none;
    input_tokens = 100;
    output_tokens = 50;
  };
  created_at = "2026-05-01T00:00:00.000Z";
}

abbrev defaults : PolicyGateOptions
defaults = record {
  gate_run_id = none;
  gate_version = none;
  evaluated_at = none;
  token_budget = none;
  default_role_visibility = none;
}

abbrev steady : GateClock
steady = record {
  now_iso = "2026-05-01T00:00:01.000Z";
  elapsed = λ _. pos 1;
  total_elapsed = pos 12;
}

-- The clock was set back while V6 ran.
abbrev set_back : GateClock
set_back = record steady { elapsed = λ id. if id == v6 then negsuc 4 else pos 1 }

abbrev approval : ExternalSend
approval = record {
  requested = true;
  channel = some email;
  recipient_id = some "client_1";
  approved_by = some "owner_1";
  approved_at = some "2026-05-01T00:00:00.000Z";
}

abbrev send : AltitudePacket
send = record invoice { external_send = some approval }

abbrev recording : AltitudePacket
recording = record invoice {
  proposed_action = record {
    type = draft_internal_summary;
    description = "Transcribe the site call";
    reason = "notes";
  };
}

answer : AltitudePacket → GateClock → SafeNextAction
answer p clock = (run_policy_gate p defaults clock).policy_gate_result.safe_next_action

answer_tests :
    (answer invoice steady ≡ allow_internal_summary)
    × (answer send steady ≡ request_owner_approval)
    × (answer recording steady ≡ block_recording)
    × (answer invoice set_back ≡ request_human_review)
    × (answer (record invoice { source_refs = [] }) steady ≡ block_promotion)
unfolding gate answer
answer_tests = (refl, refl, refl, refl, refl)

budget_test :
    (run_v17_token_budget_check invoice
      (record { per_action_token_cap = some 120; low_altitude_compact_prompt_threshold = none })
      (pos 1)).reason
    ≡ some "token_budget_exceeded: 150 > 120"
unfolding gate
budget_test = refl

assign_altitude_ignores_model_example :
    let r = assign_altitude (record send { model_suggested_altitude = l0 }) in
    (altitude_rank r.system_final_altitude ≡ system_rank send)
    × Diverges l0 r.system_final_altitude r.divergence_class
assign_altitude_ignores_model_example = assign_altitude_ignores_model send l0

-- A trail in which the sixth validator reports twice.
abbrev twice : List ValidatorResult
twice = pass_result v6 (pos 1) ∷ pass_result v6 (pos 2) ∷ []

twice-reported : validate_w1_audit_trail twice ≡ some "audit_trail_duplicate: V6"
unfolding gate
twice-reported = refl

validate_w1_audit_trail-Reports_example : Reports twice (validate_w1_audit_trail twice)
validate_w1_audit_trail-Reports_example = validate_w1_audit_trail-Reports twice

run_policy_gate-allowed_iff_example :
    ((run_policy_gate invoice defaults steady).policy_gate_result.allowed ≡ true)
    ↔ IsCleared invoice defaults steady
run_policy_gate-allowed_iff_example = run_policy_gate-allowed_iff invoice defaults steady

run_policy_gate-Answers_example :
    Answers recording defaults steady
      (run_policy_gate recording defaults steady).policy_gate_result.safe_next_action
run_policy_gate-Answers_example = run_policy_gate-Answers recording defaults steady

run_policy_gate-status_example :
    let status = (run_policy_gate invoice defaults steady).status in
    ((status ≡ blocked_pending_source) ↔ (¬ HasSources invoice))
    × ((status ≡ ready_for_review) ↔ HasSources invoice)
run_policy_gate-status_example = run_policy_gate-status invoice defaults steady

send_allowed : (run_policy_gate send defaults steady).policy_gate_result.allowed ≡ true
unfolding gate
send_allowed = refl

run_policy_gate-external_send_example :
    HasApproval approval
    × ((answer send steady ≡ request_owner_approval)
        ⊎ (answer send steady ≡ request_frontier_review))
unfolding answer
run_policy_gate-external_send_example =
    run_policy_gate-external_send send defaults steady approval refl refl send_allowed

run_policy_gate-learning_signals_example :
    let d = run_policy_gate send defaults steady in
    let rs = reasons_of d.policy_gate_result.learning_signal_drafts in
    (Member model_inference_correction rs ↔ IsCorrected send)
    × (Member source_basis_required rs ↔ (¬ HasSources send))
    × (Member altitude_divergence rs ↔ (d.model_suggested_altitude ≢ d.system_final_altitude))
run_policy_gate-learning_signals_example = run_policy_gate-learning_signals send defaults steady
