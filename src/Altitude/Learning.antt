-- ===== src/Altitude/Learning.antt =====
-- src/altitude/gate.ts: V9, the drafts of learning signals and their validation.
use kerf_app.Common.{
  Bool, List, Option, String, [], false, if◌then◌else◌, length, none, not, number_eq, some, text_eq,
  true, ℕ, ◌&&◌, ◌++◌, ◌==◌, ◌∷◌,
}
use kerf_app.Common.Int.{ℤ}
use kerf_app.Common.Text.{is_nonempty, ◌+++◌}
use kerf_app.Altitude.Types.{
  AltitudeLevel, AltitudePacket, AltitudeWorkflowKind, DivergenceClass, LearningSignalDraftReason,
  ValidatorFieldCorrection, ValidatorId, ValidatorResult, altitude_divergence, blackboard_update,
  compliance, drift_detection, field_capture, flag_eq, intake, invoice_followup, l0, l1, l2, l3, l4,
  match, memory_promotion, model_inference_correction, model_overcaution, model_undercaution,
  proposal_followup, proposal_generation, role_visibility_eq, source_basis_required, v18, v7, v8,
  v9, validator_id_eq, voice_tour,
}
use kerf_app.Altitude.Levels.{AltitudeAssignmentResult}
use kerf_app.Altitude.Validators.{fail_result, pass_result}

-- A value in a draft's metadata.
pub data Metadata : Type 0 where
  absent : Metadata
  text : String → Metadata
  count : ℕ → Metadata
  texts : List String → Metadata

pub record LearningSignalDraft : Type 0 where
  pub draft_id : String
  pub packet_id : String
  pub workflow : AltitudeWorkflowKind
  pub source_validator_id : ValidatorId
  pub reason : LearningSignalDraftReason
  pub summary : String
  pub source_model : String
  pub created_at : String
  pub metadata : List (String × Metadata)

abbrev workflow_text : AltitudeWorkflowKind → String
workflow_text invoice_followup = "invoice_followup"
workflow_text proposal_followup = "proposal_followup"
workflow_text proposal_generation = "proposal_generation"
workflow_text field_capture = "field_capture"
workflow_text drift_detection = "drift_detection"
workflow_text intake = "intake"
workflow_text compliance = "compliance"
workflow_text voice_tour = "voice_tour"
workflow_text memory_promotion = "memory_promotion"
workflow_text blackboard_update = "blackboard_update"

abbrev pub level_text : AltitudeLevel → String
level_text l0 = "L0"
level_text l1 = "L1"
level_text l2 = "L2"
level_text l3 = "L3"
level_text l4 = "L4"

abbrev divergence_text : DivergenceClass → String
divergence_text match = "match"
divergence_text model_overcaution = "model_overcaution"
divergence_text model_undercaution = "model_undercaution"

abbrev reason_text : LearningSignalDraftReason → String
reason_text model_inference_correction = "model_inference_correction"
reason_text source_basis_required = "source_basis_required"
reason_text altitude_divergence = "altitude_divergence"

-- `sourceValidatorId.toLowerCase()`, for the three validators that are sources of drafts
abbrev source_text : ValidatorId → String
source_text v7 = "v7"
source_text v8 = "v8"
source_text v18 = "v18"
source_text _ = ""

abbrev of_option : Option String → Metadata
of_option none = absent
of_option (some s) = text s

unfoldable pub learning_signal_draft :
    AltitudePacket
    → String
    → ValidatorId
    → LearningSignalDraftReason
    → String
    → List (String × Metadata)
    → LearningSignalDraft
learning_signal_draft p evaluated_at source reason summary metadata = record {
  draft_id = p.packet_id +++ ":learning:" +++ source_text source +++ ":" +++ reason_text reason;
  packet_id = p.packet_id;
  workflow = p.workflow;
  source_validator_id = source;
  reason = reason;
  summary = summary;
  source_model = p.source_model;
  created_at = evaluated_at;
  metadata = metadata;
}

module _ (p : AltitudePacket) (evaluated_at : String) where
  -- The three tests of `buildLearningSignalDrafts`, each with the draft that it pushes.
  unfoldable pub correction_drafts : Option ValidatorFieldCorrection → List LearningSignalDraft
  correction_drafts none = []
  correction_drafts (some c) =
      learning_signal_draft p evaluated_at v8 model_inference_correction
        ("V8 corrected " +++ c.field +++ " for " +++ workflow_text p.workflow +++ ".")
        (("field", text c.field) ∷ ("from", of_option c.from) ∷ ("to", of_option c.to) ∷ [])
      ∷ []

  abbrev pub names_source_basis : Option String → Bool
  names_source_basis none = false
  names_source_basis (some reason) = reason == "source_basis_required"

  unfoldable pub source_basis_drafts : ValidatorResult → List LearningSignalDraft
  source_basis_drafts v =
      if not v.passed && names_source_basis v.reason
      then learning_signal_draft p evaluated_at v7 source_basis_required
          ("V7 blocked promotion because source basis was incomplete for "
            +++ workflow_text p.workflow
            +++ ".")
          (("source_refs_count", count (length p.source_refs))
            ∷ ("evidence_ids_count", count (length p.evidence_ids))
            ∷ ("claim_ids_count", count (length p.claim_ids))
            ∷ [])
        ∷ []
      else []

  unfoldable pub divergence_draft : AltitudeAssignmentResult → List LearningSignalDraft
  divergence_draft a =
      learning_signal_draft p evaluated_at v18 altitude_divergence
        ("V18 detected "
          +++ divergence_text a.divergence_class
          +++ " for "
          +++ workflow_text p.workflow
          +++ ".")
        (("model_suggested_altitude", text (level_text p.model_suggested_altitude))
          ∷ ("system_final_altitude", text (level_text a.system_final_altitude))
          ∷ ("divergence_class", text (divergence_text a.divergence_class))
          ∷ ("workflow_baseline", text (level_text a.workflow_baseline))
          ∷ ("action_baseline", text (level_text a.action_baseline))
          ∷ ("escalation_floor", text (level_text a.escalation_floor))
          ∷ ("matched_rules", texts a.matched_rules)
          ∷ [])
      ∷ []

  abbrev pub is_match : DivergenceClass → Bool
  is_match match = true
  is_match _ = false

  unfoldable pub divergence_drafts : AltitudeAssignmentResult → List LearningSignalDraft
  unfolding divergence_draft
  divergence_drafts a = if is_match a.divergence_class then [] else divergence_draft a

  unfoldable pub build_learning_signal_drafts :
      ValidatorResult → ValidatorResult → AltitudeAssignmentResult → List LearningSignalDraft
  unfolding correction_drafts source_basis_drafts divergence_drafts
  build_learning_signal_drafts r7 r8 assignment =
      correction_drafts r8.field_corrected
      ++ (source_basis_drafts r7 ++ divergence_drafts assignment)

-- The tests of `typeof` hold for a value of the type; what is left are the empty texts.
unfoldable pub validate_learning_signal_draft : LearningSignalDraft → Option String
validate_learning_signal_draft d =
    let id = if is_nonempty d.draft_id then d.draft_id else "unknown" in
    let malformed =
      λ (field : String). some ("learning_signal_draft_malformed: " +++ id +++ field) in
    if not (is_nonempty d.draft_id)
    then malformed ".draft_id"
    else if not (is_nonempty d.packet_id)
    then malformed ".packet_id"
    else if not (is_nonempty d.summary)
    then malformed ".summary"
    else if not (is_nonempty d.created_at)
    then malformed ".created_at"
    else if not (is_nonempty d.source_model)
    then malformed ".source_model"
    else none

-- `drafts.map(validate).find(reason => reason !== undefined)`
unfoldable pub malformed_reason : List LearningSignalDraft → Option String
malformed_reason [] = none
malformed_reason (d ∷ ds) = elim (validate_learning_signal_draft d) [
  | none ↦ malformed_reason ds
  | some reason ↦ some reason
]

abbrev pub v9_result : Option String → ℤ → ValidatorResult
v9_result none elapsed = pass_result v9 elapsed
v9_result (some reason) elapsed = fail_result v9 reason elapsed

unfoldable pub run_v9_learning_signal_creation :
    AltitudePacket
    → ValidatorResult
    → ValidatorResult
    → AltitudeAssignmentResult
    → String
    → ℤ
    → ValidatorResult × List LearningSignalDraft
run_v9_learning_signal_creation p r7 r8 assignment evaluated_at elapsed =
    let drafts = build_learning_signal_drafts p evaluated_at r7 r8 assignment in
    (v9_result (malformed_reason drafts) elapsed, drafts)
