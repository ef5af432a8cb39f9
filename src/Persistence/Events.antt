-- ===== src/Persistence/Events.antt =====
-- src/persistence/events.ts: the check of an event: what every event has, and what its type asks for.
-- The text of an arbitrary value in a message is an argument.
use kerf_app.Common.{
  List, Option, String, [], if◌then◌else◌, is_empty, is_some, none, not, some, ◌++◌, ◌>?◌, ◌||◌,
  ◌∷◌,
}
use kerf_app.Common.Text.{◌+++◌}
use kerf_app.Common.Json.{Value, array, is_object, member}
use kerf_app.Checks.Guards.{
  ValidationResult, check_given, errors_of, invalid, is_iso8601, is_nonempty_text, is_text,
  is_undefined, nonempty_string, require, require_given, require_object, require_one_of, valid,
  validate_each,
}
use kerf_app.Persistence.Vocabulary.{
  PersistenceEventType, actuals_recorded, allowance_exception_opened, allowance_exception_resolved,
  ap_invoice_approved, ap_invoice_scheduled, calibration_answered, capture_recorded,
  client_approval_confirmed, client_created, correction_classified, daily_log_drift_detected,
  daily_log_entry_captured, daily_log_facts_extracted, decision_approved, decision_drafted,
  event_type_of, export_requested, invoice_created, invoice_sent, is_source_refs_optional,
  kb_ingested, payment_received, payment_recorded, project_created, proposal_accepted,
  proposal_drafted, proposal_edited, proposal_sent, relay_card_reviewed, relay_card_surfaced,
  scaffold_generated, scaffold_refined, send_gate_evaluated, suggestion_overridden,
  transcript_reviewed, type_text, valid_actor_roles, valid_source_ref_kinds, valid_tenant_ids,
}
use kerf_app.Persistence.WorkEvents.{
  validate_actuals_recorded, validate_capture_recorded, validate_client_approval_confirmed,
  validate_client_created, validate_decision_approved, validate_decision_drafted,
  validate_kb_ingested, validate_project_created, validate_proposal_accepted,
  validate_proposal_drafted, validate_proposal_edited, validate_proposal_sent,
  validate_scaffold_generated, validate_scaffold_refined, validate_transcript_reviewed,
}
use kerf_app.Persistence.FieldEvents.{
  validate_daily_log_drift_detected, validate_daily_log_entry_captured,
  validate_daily_log_facts_extracted, validate_relay_card_reviewed, validate_relay_card_surfaced,
}
use kerf_app.Persistence.LearningEvents.{
  validate_calibration_answered, validate_correction_classified, validate_export_requested,
  validate_send_gate_evaluated, validate_suggestion_overridden,
}
use kerf_app.Persistence.MoneyEvents.{
  validate_allowance_exception_opened, validate_allowance_exception_resolved,
  validate_ap_invoice_approved, validate_ap_invoice_scheduled, validate_invoice_created,
  validate_invoice_sent, validate_payment_received, validate_payment_recorded,
}

unfoldable pub validate_source_ref : Value → String → List String
validate_source_ref ref prefix = require_object ref (prefix +++ " must be an object") (
    require_one_of (member ref "kind") valid_source_ref_kinds
      (prefix +++ ".kind must be a non-empty string")
      (λ s.
        prefix +++ ".kind \"" +++ s
        +++ "\" is not a recognized SourceRef kind (expected voice, photo, transcript, doc, or external)")
    ++ (require (is_undefined (member ref "uri") || is_text (member ref "uri"))
          (prefix +++ ".uri must be a string when present")
        ++ require (is_undefined (member ref "excerpt") || is_text (member ref "excerpt"))
            (prefix +++ ".excerpt must be a string when present")))

unfoldable pub require_sources : Option PersistenceEventType → List Value → List String
require_sources event_type refs = check_given event_type (λ t.
    require (is_source_refs_optional t || not (is_empty refs)) (
      "source_refs must be non-empty for event type \""
      +++ type_text t
      +++ "\" (empty allowed only for project.created and kb.ingested)"))

unfoldable pub validate_source_refs : Value → Option PersistenceEventType → List String
validate_source_refs source_refs event_type =
    require_given (array source_refs) "source_refs must be an array" (λ refs.
      require_sources event_type refs ++ validate_each validate_source_ref "source_refs" 0 refs)

unfoldable pub validate_event_actor : Value → List String
validate_event_actor actor = require_object actor "actor must be an object" (
    require (is_nonempty_text (member actor "id")) "actor.id must be a non-empty string"
    ++ require_one_of (member actor "role") valid_actor_roles
        "actor.role must be a non-empty string"
        (λ s. "actor.role \"" +++ s +++ "\" is not a recognized role"))

-- `record['type']`, if it is a known type
abbrev pub event_type : Value → Option PersistenceEventType
event_type r = nonempty_string (member r "type") >? event_type_of

unfoldable pub type_name_errors : Value → List String
type_name_errors v = require_given (nonempty_string v) "type must be a non-empty string" (λ s.
    require (is_some (event_type_of s))
      ("type \"" +++ s +++ "\" is not a known PersistenceEventType"))

unfoldable pub validate_base : Value → List String
validate_base r = errors_of (
    require (is_nonempty_text (member r "event_id")) "event_id must be a non-empty string"
    ∷ type_name_errors (member r "type")
    ∷ require_one_of (member r "tenant_id") valid_tenant_ids "tenant_id must be a non-empty string"
        (λ s.
          "tenant_id \"" +++ s
          +++ "\" is not a recognized tenant (expected tenant_ggr, tenant_valle, or tenant_hpg)")
    ∷ require (is_nonempty_text (member r "correlation_id"))
        "correlation_id must be a non-empty string"
    ∷ validate_event_actor (member r "actor")
    ∷ require (is_iso8601 (member r "at")) "at must be an ISO8601 timestamp"
    ∷ validate_source_refs (member r "source_refs") (event_type r)
    ∷ [])

unfoldable pub type_errors : (Value → String) → PersistenceEventType → Value → List String
type_errors text_of project_created r = validate_project_created r
type_errors text_of capture_recorded r = validate_capture_recorded r
type_errors text_of transcript_reviewed r = validate_transcript_reviewed r
type_errors text_of scaffold_generated r = validate_scaffold_generated r
type_errors text_of scaffold_refined r = validate_scaffold_refined r
type_errors text_of decision_drafted r = validate_decision_drafted r
type_errors text_of decision_approved r = validate_decision_approved r
type_errors text_of actuals_recorded r = validate_actuals_recorded r
type_errors text_of kb_ingested r = validate_kb_ingested r
type_errors text_of proposal_drafted r = validate_proposal_drafted r
type_errors text_of proposal_edited r = validate_proposal_edited r
type_errors text_of proposal_accepted r = validate_proposal_accepted r
type_errors text_of proposal_sent r = validate_proposal_sent r
type_errors text_of client_created r = validate_client_created r
type_errors text_of daily_log_entry_captured r = validate_daily_log_entry_captured text_of r
type_errors text_of daily_log_facts_extracted r = validate_daily_log_facts_extracted r
type_errors text_of daily_log_drift_detected r = validate_daily_log_drift_detected r
type_errors text_of relay_card_surfaced r = validate_relay_card_surfaced r
type_errors text_of relay_card_reviewed r = validate_relay_card_reviewed r
type_errors text_of suggestion_overridden r = validate_suggestion_overridden r
type_errors text_of correction_classified r = validate_correction_classified text_of r
type_errors text_of send_gate_evaluated r = validate_send_gate_evaluated r
type_errors text_of export_requested r = validate_export_requested r
type_errors text_of calibration_answered r = validate_calibration_answered r
type_errors text_of invoice_created r = validate_invoice_created r
type_errors text_of invoice_sent r = validate_invoice_sent r
type_errors text_of ap_invoice_scheduled r = validate_ap_invoice_scheduled r
type_errors text_of ap_invoice_approved r = validate_ap_invoice_approved r
type_errors text_of payment_recorded r = validate_payment_recorded r
type_errors text_of payment_received r = validate_payment_received r
type_errors text_of allowance_exception_opened r = validate_allowance_exception_opened r
type_errors text_of allowance_exception_resolved r = validate_allowance_exception_resolved r
type_errors text_of client_approval_confirmed r = validate_client_approval_confirmed r

unfoldable pub event_errors : (Value → String) → PersistenceEventType → Value → List String
event_errors text_of t r = validate_base r ++ type_errors text_of t r

-- Only an unknown type keeps the other checks from being made.
unfoldable pub validate_persistence_event : (Value → String) → Value → ValidationResult
validate_persistence_event text_of input =
    if is_object input
    then elim (event_type input) [
      | none ↦ invalid (validate_base input)
      | some t ↦
          if is_empty (event_errors text_of t input)
          then valid input
          else invalid (event_errors text_of t input)
    ]
    else invalid ("event must be an object" ∷ [])
