-- ===== src/Altitude/Gate.antt =====
-- src/altitude/gate.ts: the policy gate, `runPolicyGate`.
use kerf_app.Common.{
  List, String, [], if◌then◌else◌, includes, is_empty, none, not, number_eq, or_else, text_eq, ◌&&◌,
  ◌>?◌, ◌∷◌,
}
use kerf_app.Common.Text.{◌+++◌}
use kerf_app.Altitude.Types.{
  AltitudePacket, AltitudeRoleVisibility, ValidatorId, ValidatorResult, admin,
  blocked_pending_source, flag_eq, id_text, owner, ready_for_review, role_visibility_eq, v1, v12,
  v17, v18, v2, v4, v6, v7, v8, v9, validator_id_eq,
}
use kerf_app.Altitude.Validators.{
  run_v1_pricing_source_class, run_v2_external_send_approval, run_v4_recording_consent,
  run_v6_role_redaction, run_v7_source_basis_required, run_v8_model_inference_labeling, truthy,
}
use kerf_app.Altitude.BudgetValidators.{
  TokenBudgetOptions, run_v17_token_budget_check, run_v18_altitude_assignment,
}
use kerf_app.Altitude.Learning.{run_v9_learning_signal_creation}
use kerf_app.Altitude.AuditTrail.{run_v12_audit_trail_completeness}
use kerf_app.Altitude.Derive.{
  derive_corrected_fields, derive_review_requirement, derive_safe_next_action, needs_approval,
}
use kerf_app.Altitude.GateTypes.{
  DecisionPacket, Evaluation, GateClock, PolicyGateOptions, PolicyGateResult,
}

unfoldable pub evaluated_at_of : PolicyGateOptions → GateClock → String
evaluated_at_of options clock = or_else options.evaluated_at clock.now_iso

unfoldable pub role_visibility_of : PolicyGateOptions → List AltitudeRoleVisibility
role_visibility_of options = or_else options.default_role_visibility (owner ∷ admin ∷ [])

abbrev no_budget : TokenBudgetOptions
no_budget = record { per_action_token_cap = none; low_altitude_compact_prompt_threshold = none }

unfoldable pub token_budget_of : PolicyGateOptions → TokenBudgetOptions
token_budget_of options = or_else options.token_budget no_budget

abbrev pub other_results : Evaluation → List ValidatorResult
other_results e = e.r1 ∷ e.r2 ∷ e.r4 ∷ e.r6 ∷ e.r7 ∷ e.r8 ∷ e.r9 ∷ e.r17 ∷ e.r18 ∷ []

abbrev pub all_results : Evaluation → List ValidatorResult
all_results e = e.r1 ∷ e.r2 ∷ e.r4 ∷ e.r6 ∷ e.r7 ∷ e.r8 ∷ e.r9 ∷ e.r12 ∷ e.r17 ∷ e.r18 ∷ []

-- The ten calls of the validators.
unfoldable pub evaluate : AltitudePacket → PolicyGateOptions → GateClock → Evaluation
evaluate p options clock =
    let a1 = run_v1_pricing_source_class p (clock.elapsed v1) in
    let a2 = run_v2_external_send_approval p (clock.elapsed v2) in
    let a4 = run_v4_recording_consent p (clock.elapsed v4) in
    let a6 = run_v6_role_redaction p (role_visibility_of options) (clock.elapsed v6) in
    let a7 = run_v7_source_basis_required p (clock.elapsed v7) in
    let a8 = run_v8_model_inference_labeling p (clock.elapsed v8) in
    let a17 = run_v17_token_budget_check p (token_budget_of options) (clock.elapsed v17) in
    let (a18, assigned) = run_v18_altitude_assignment p (clock.elapsed v18) in
    let (a9, signals) =
      run_v9_learning_signal_creation p a7 a8 assigned (evaluated_at_of options clock)
        (clock.elapsed v9) in
    let others = a1 ∷ a2 ∷ a4 ∷ a6 ∷ a7 ∷ a8 ∷ a9 ∷ a17 ∷ a18 ∷ [] in
    record {
      r1 = a1;
      r2 = a2;
      r4 = a4;
      r6 = a6;
      r7 = a7;
      r8 = a8;
      r17 = a17;
      r18 = a18;
      assignment = assigned;
      r9 = a9;
      drafts = signals;
      r12 = run_v12_audit_trail_completeness others (clock.elapsed v12);
    }

-- `.filter((result) => !result.passed && result.critical).map((result) => result.validator_id)`
unfoldable pub critical_failures_of : List ValidatorResult → List ValidatorId
critical_failures_of [] = []
critical_failures_of (r ∷ rest) =
    let later = critical_failures_of rest in
    if not r.passed && r.critical then r.validator_id ∷ later else later

-- `.filter((result) => !result.passed).map((result) => result.reason ?? id + ' failed')`
unfoldable pub blocked_reasons_of : List ValidatorResult → List String
blocked_reasons_of [] = []
blocked_reasons_of (r ∷ rest) =
    let later = blocked_reasons_of rest in
    if r.passed then later else or_else r.reason (id_text r.validator_id +++ " failed") ∷ later

unfoldable pub gate_result :
    AltitudePacket → PolicyGateOptions → GateClock → Evaluation → PolicyGateResult
gate_result p options clock e =
    let failures = critical_failures_of (all_results e) in
    let reasons = blocked_reasons_of (all_results e) in
    let approval =
      needs_approval (derive_review_requirement e.assignment.system_final_altitude p) in
    let evaluated = evaluated_at_of options clock in
    record {
      packet_id = p.packet_id;
      gate_run_id = or_else options.gate_run_id (p.packet_id +++ ":gate:" +++ evaluated);
      gate_version = or_else options.gate_version "v0.3.0";
      allowed = is_empty reasons;
      blocked_reasons = reasons;
      required_human_approval = approval;
      corrected_fields = derive_corrected_fields e.assignment (all_results e);
      safe_next_action =
          derive_safe_next_action (is_empty reasons) failures reasons approval
            e.assignment.system_final_altitude;
      validator_results = all_results e;
      has_critical_failure = not (is_empty failures);
      critical_failures = failures;
      evaluated_at = evaluated;
      duration_ms = clock.total_elapsed;
      source_model = p.source_model;
      learning_signal_drafts = e.drafts;
    }

unfoldable pub run_policy_gate : AltitudePacket → PolicyGateOptions → GateClock → DecisionPacket
run_policy_gate p options clock =
    let e = evaluate p options clock in
    let result = gate_result p options clock e in
    record {
      packet_id = p.packet_id;
      event_id = p.event_id;
      tenant_id = p.tenant_id;
      project_id = truthy p.project_id;
      workflow = p.workflow;
      classification = p.classification;
      extracted_facts = p.extracted_facts;
      proposed_action = p.proposed_action;
      model_suggested_altitude = p.model_suggested_altitude;
      model_suggested_blackboard_rail = p.model_suggested_blackboard_rail;
      model_inference_label = p.model_inference_label;
      system_baseline_altitude = e.assignment.system_baseline_altitude;
      system_final_altitude = e.assignment.system_final_altitude;
      system_final_blackboard_rail = p.model_suggested_blackboard_rail;
      system_source_status = p.money_fields >? (λ m. m.source_status);
      money_fields = p.money_fields;
      external_send = p.external_send;
      recording_intent = p.recording_intent;
      compliance_flags = p.compliance_flags;
      jurisdiction = truthy p.jurisdiction;
      source_refs = p.source_refs;
      evidence_ids = p.evidence_ids;
      claim_ids = p.claim_ids;
      review_requirement = derive_review_requirement e.assignment.system_final_altitude p;
      role_visibility = role_visibility_of options;
      source_model = p.source_model;
      token_usage = p.token_usage;
      status =
          if includes result.critical_failures v7 then blocked_pending_source else ready_for_review;
      created_at = p.created_at;
      policy_gate_result = result;
    }
