-- ===== src/Altitude/GateTypes.antt =====
-- src/altitude/gate.ts and types.ts: what the policy gate takes and returns.
use kerf_app.Common.{Bool, List, Option, String}
use kerf_app.Common.Int.{ℤ}
use kerf_app.Altitude.Types.{
  AltitudeClassification, AltitudeLevel, AltitudeProposedAction, AltitudeRoleVisibility,
  AltitudeTokenUsage, AltitudeWorkflowKind, BlackboardRail, ComplianceFlag, DecisionPacketStatus,
  ExternalSend, InferenceLabel, MoneyFields, RecordingIntent, ReviewRequirement, SafeNextAction,
  SourceStatus, ValidatorId, ValidatorResult,
}
use kerf_app.Altitude.Levels.{AltitudeAssignmentResult}
use kerf_app.Altitude.BudgetValidators.{TokenBudgetOptions}
use kerf_app.Altitude.Learning.{LearningSignalDraft}

pub record PolicyGateOptions : Type 0 where
  pub gate_run_id : Option String
  pub gate_version : Option String
  pub evaluated_at : Option String
  pub token_budget : Option TokenBudgetOptions
  pub default_role_visibility : Option (List AltitudeRoleVisibility)

-- What the gate reads from the clock: the date, and the time that passed in each validator and in
-- the whole run.
pub record GateClock : Type 0 where
  pub now_iso : String
  pub elapsed : ValidatorId → ℤ
  pub total_elapsed : ℤ

pub record PolicyGateResult : Type 0 where
  pub packet_id : String
  pub gate_run_id : String
  pub gate_version : String
  pub allowed : Bool
  pub blocked_reasons : List String
  pub required_human_approval : Bool
  pub corrected_fields : List (String × Option String × Option String)
  pub safe_next_action : SafeNextAction
  pub validator_results : List ValidatorResult
  pub has_critical_failure : Bool
  pub critical_failures : List ValidatorId
  pub evaluated_at : String
  pub duration_ms : ℤ
  pub source_model : String
  pub learning_signal_drafts : List LearningSignalDraft

pub record DecisionPacket : Type 0 where
  pub packet_id : String
  pub event_id : String
  pub tenant_id : String
  pub project_id : Option String
  pub workflow : AltitudeWorkflowKind
  pub classification : AltitudeClassification
  pub extracted_facts : List (String × String)
  pub proposed_action : AltitudeProposedAction
  pub model_suggested_altitude : AltitudeLevel
  pub model_suggested_blackboard_rail : Option BlackboardRail
  pub model_inference_label : Option InferenceLabel
  pub system_baseline_altitude : AltitudeLevel
  pub system_final_altitude : AltitudeLevel
  pub system_final_blackboard_rail : Option BlackboardRail
  pub system_source_status : Option SourceStatus
  pub money_fields : Option MoneyFields
  pub external_send : Option ExternalSend
  pub recording_intent : Option RecordingIntent
  pub compliance_flags : Option (List ComplianceFlag)
  pub jurisdiction : Option String
  pub source_refs : List String
  pub evidence_ids : List String
  pub claim_ids : List String
  pub review_requirement : ReviewRequirement
  pub role_visibility : List AltitudeRoleVisibility
  pub source_model : String
  pub token_usage : AltitudeTokenUsage
  pub status : DecisionPacketStatus
  pub created_at : String
  pub policy_gate_result : PolicyGateResult

-- The results in the order in which the gate lists them. V12 reads the other nine.
pub record Evaluation : Type 0 where
  pub r1 : ValidatorResult
  pub r2 : ValidatorResult
  pub r4 : ValidatorResult
  pub r6 : ValidatorResult
  pub r7 : ValidatorResult
  pub r8 : ValidatorResult
  pub r17 : ValidatorResult
  pub r18 : ValidatorResult
  pub assignment : AltitudeAssignmentResult
  pub r9 : ValidatorResult
  pub drafts : List LearningSignalDraft
  pub r12 : ValidatorResult
