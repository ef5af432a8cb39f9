-- ===== src/Altitude/Types.antt =====
-- src/altitude/types.ts: the closed vocabularies and the packets.
-- The fields of a packet that the gate carries through and never reads (texts, source references,
-- extracted facts) are texts or lists of texts.
use kerf_app.Common.{Bool, HasEq, List, Option, String, arith, index_eq, ℕ, ◌≡◌}
use kerf_app.Common.Text.{decimal, ◌+++◌}
use kerf_app.Common.Int.{ℤ}

pub data AltitudeLevel : Type 0 where
  l0 l1 l2 l3 l4 : AltitudeLevel

pub data AltitudeWorkflowKind : Type 0 where
  invoice_followup proposal_followup proposal_generation : AltitudeWorkflowKind
  field_capture drift_detection intake compliance voice_tour : AltitudeWorkflowKind
  memory_promotion blackboard_update : AltitudeWorkflowKind

pub data AltitudeProposedActionType : Type 0 where
  no_action draft_internal_summary draft_client_message : AltitudeProposedActionType
  request_review route_to_owner route_to_pm block : AltitudeProposedActionType

pub data BlackboardRail : Type 0 where
  movement whos_where pinned changed holding : BlackboardRail

pub data InferenceLabel : Type 0 where
  direct_evidence inferred model_guess label_needs_review : InferenceLabel

pub data AltitudeUrgency : Type 0 where
  low normal high blocked : AltitudeUrgency

pub data AltitudeConfidenceBand : Type 0 where
  band_high band_medium band_low : AltitudeConfidenceBand

pub data ReviewRequirement : Type 0 where
  autonomous operator_review owner_review frontier_review : ReviewRequirement

pub data AltitudeRoleVisibility : Type 0 where
  owner admin pm field sub client : AltitudeRoleVisibility

pub data DecisionPacketStatus : Type 0 where
  ready_for_review approved rejected expired superseded : DecisionPacketStatus
  blocked_pending_source : DecisionPacketStatus

pub data SafeNextAction : Type 0 where
  allow_commit allow_draft allow_internal_summary request_human_review : SafeNextAction
  request_owner_approval request_frontier_review block_external_send : SafeNextAction
  block_pricing_use block_recording block_role_visibility block_promotion : SafeNextAction
  block_token_budget block_with_remediation : SafeNextAction

pub data SourceStatus : Type 0 where
  status_current status_expired status_unsupported status_missing : SourceStatus
  status_placeholder status_needs_review : SourceStatus

pub data PricingSourceClass : Type 0 where
  tenant_catalog verified_quote historical_actual project_actual : PricingSourceClass
  public_reference kerf_seed model_inference : PricingSourceClass
  placeholder unsupported missing : PricingSourceClass

pub data PrivilegedMoneyField : Type 0 where
  margin markup profit internal_cost bid_spread financing_terms : PrivilegedMoneyField

pub data ExternalSendChannel : Type 0 where
  email sms slack client_portal other : ExternalSendChannel

pub data RecordingConsentState : Type 0 where
  not_required single_party all_party_captured : RecordingConsentState
  consent_missing ambiguous unknown : RecordingConsentState

pub data ComplianceFlag : Type 0 where
  lien juvenile_court restitution_dispute regulatory_notice csl_complaint : ComplianceFlag
  recording_consent_missing consent_risk : ComplianceFlag

pub data ValidatorId : Type 0 where
  v1 v2 v3 v4 v5 v6 v7 v8 v9 v10 v11 v12 v13 v14 v15 v16 v17 v18 : ValidatorId

pub data MutationIntent : Type 0 where
  read quote propose approve commit : MutationIntent

pub data LearningSignalDraftReason : Type 0 where
  model_inference_correction source_basis_required : LearningSignalDraftReason
  altitude_divergence : LearningSignalDraftReason

pub data DivergenceClass : Type 0 where
  match model_overcaution model_undercaution : DivergenceClass

pub record AltitudeClassification : Type 0 where
  pub intent : String
  pub urgency : AltitudeUrgency
  pub confidence_band : AltitudeConfidenceBand

pub record AltitudeProposedAction : Type 0 where
  pub type : AltitudeProposedActionType
  pub description : String
  pub reason : String

pub record MoneyFields : Type 0 where
  pub amount_cents : Option ℤ
  pub source_status : Option SourceStatus
  pub source_class : Option PricingSourceClass
  pub privileged_fields : Option (List PrivilegedMoneyField)
  pub mutation_intent : Option MutationIntent

pub record ExternalSend : Type 0 where
  pub requested : Bool
  pub channel : Option ExternalSendChannel
  pub recipient_id : Option String
  pub approved_by : Option String
  pub approved_at : Option String

pub record RecordingIntent : Type 0 where
  pub requested : Bool
  pub consent_state : Option RecordingConsentState
  pub captured_party_count : Option ℕ

pub record AltitudeTokenUsage : Type 0 where
  pub estimated_input_tokens : Option ℕ
  pub estimated_output_tokens : Option ℕ
  pub input_tokens : ℕ
  pub output_tokens : ℕ

-- A corrected value is an altitude or a label: its text, or `none` for `undefined`.
pub record ValidatorFieldCorrection : Type 0 where
  pub field : String
  pub from : Option String
  pub to : Option String

pub record ValidatorResult : Type 0 where
  pub validator_id : ValidatorId
  pub validator_name : String
  pub passed : Bool
  pub critical : Bool
  pub reason : Option String
  pub field_corrected : Option ValidatorFieldCorrection
  pub duration_ms : ℤ

pub record AltitudePacket : Type 0 where
  pub packet_id : String
  pub event_id : String
  pub tenant_id : String
  pub project_id : Option String
  pub workflow : AltitudeWorkflowKind
  pub classification : AltitudeClassification
  pub extracted_facts : List (String × String)
  pub proposed_action : AltitudeProposedAction
  pub model_suggested_altitude : AltitudeLevel
  pub model_suggested_blackboard_rail : Option BlackboardRail
  pub model_inference_label : Option InferenceLabel
  pub money_fields : Option MoneyFields
  pub external_send : Option ExternalSend
  pub recording_intent : Option RecordingIntent
  pub compliance_flags : Option (List ComplianceFlag)
  pub jurisdiction : Option String
  pub source_refs : List String
  pub evidence_ids : List String
  pub claim_ids : List String
  pub source_model : String
  pub token_usage : AltitudeTokenUsage
  pub created_at : String

-- The values of an enumeration are numbered, so that `===` and `includes` compute.
abbrev pub role_index : AltitudeRoleVisibility → ℕ
role_index owner = 0
role_index admin = 1
role_index pm = 2
role_index field = 3
role_index sub = 4
role_index client = 5

pub role_index_injective : (a b : AltitudeRoleVisibility) → role_index a ≡ role_index b → a ≡ b
role_index_injective a b h = ground arith

instance abbrev pub role_visibility_eq : HasEq AltitudeRoleVisibility
role_visibility_eq = index_eq role_index role_index_injective

abbrev pub validator_index : ValidatorId → ℕ
validator_index v1 = 1
validator_index v2 = 2
validator_index v3 = 3
validator_index v4 = 4
validator_index v5 = 5
validator_index v6 = 6
validator_index v7 = 7
validator_index v8 = 8
validator_index v9 = 9
validator_index v10 = 10
validator_index v11 = 11
validator_index v12 = 12
validator_index v13 = 13
validator_index v14 = 14
validator_index v15 = 15
validator_index v16 = 16
validator_index v17 = 17
validator_index v18 = 18

-- The text of an id, which is `V` and its number.
abbrev pub id_text : ValidatorId → String
id_text id = "V" +++ decimal (validator_index id)

pub validator_index_injective : (a b : ValidatorId) → validator_index a ≡ validator_index b → a ≡ b
validator_index_injective a b h = ground arith

instance abbrev pub validator_id_eq : HasEq ValidatorId
validator_id_eq = index_eq validator_index validator_index_injective

abbrev pub flag_index : ComplianceFlag → ℕ
flag_index lien = 0
flag_index juvenile_court = 1
flag_index restitution_dispute = 2
flag_index regulatory_notice = 3
flag_index csl_complaint = 4
flag_index recording_consent_missing = 5
flag_index consent_risk = 6

pub flag_index_injective : (a b : ComplianceFlag) → flag_index a ≡ flag_index b → a ≡ b
flag_index_injective a b h = ground arith

instance abbrev pub flag_eq : HasEq ComplianceFlag
flag_eq = index_eq flag_index flag_index_injective
