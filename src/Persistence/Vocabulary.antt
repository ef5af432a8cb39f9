-- ===== src/Persistence/Vocabulary.antt =====
-- src/persistence/events.ts: the types of events, and the sets of texts that their fields allow.
use kerf_app.Common.{
  Bool, List, Option, String, [], false, find, includes, number_eq, text_eq, true, ◌==◌, ◌∷◌,
}
use kerf_app.Common.Json.{Value, text}

pub data PersistenceEventType : Type 0 where
  project_created capture_recorded transcript_reviewed : PersistenceEventType
  scaffold_generated scaffold_refined decision_drafted : PersistenceEventType
  decision_approved actuals_recorded kb_ingested : PersistenceEventType
  proposal_drafted proposal_edited proposal_accepted : PersistenceEventType
  proposal_sent client_created daily_log_entry_captured : PersistenceEventType
  daily_log_facts_extracted daily_log_drift_detected relay_card_surfaced : PersistenceEventType
  relay_card_reviewed suggestion_overridden correction_classified : PersistenceEventType
  send_gate_evaluated export_requested calibration_answered : PersistenceEventType
  invoice_created invoice_sent ap_invoice_scheduled : PersistenceEventType
  ap_invoice_approved payment_recorded payment_received : PersistenceEventType
  allowance_exception_opened allowance_exception_resolved client_approval_confirmed :
      PersistenceEventType

abbrev pub type_text : PersistenceEventType → String
type_text project_created = "project.created"
type_text capture_recorded = "capture.recorded"
type_text transcript_reviewed = "transcript.reviewed"
type_text scaffold_generated = "scaffold.generated"
type_text scaffold_refined = "scaffold.refined"
type_text decision_drafted = "decision.drafted"
type_text decision_approved = "decision.approved"
type_text actuals_recorded = "actuals.recorded"
type_text kb_ingested = "kb.ingested"
type_text proposal_drafted = "proposal.drafted"
type_text proposal_edited = "proposal.edited"
type_text proposal_accepted = "proposal.accepted"
type_text proposal_sent = "proposal.sent"
type_text client_created = "client.created"
type_text daily_log_entry_captured = "daily_log.entry_captured"
type_text daily_log_facts_extracted = "daily_log.facts_extracted"
type_text daily_log_drift_detected = "daily_log.drift_detected"
type_text relay_card_surfaced = "relay_card.surfaced"
type_text relay_card_reviewed = "relay_card.reviewed"
type_text suggestion_overridden = "suggestion.overridden"
type_text correction_classified = "correction.classified"
type_text send_gate_evaluated = "send_gate.evaluated"
type_text export_requested = "export.requested"
type_text calibration_answered = "calibration.answered"
type_text invoice_created = "invoice.created"
type_text invoice_sent = "invoice.sent"
type_text ap_invoice_scheduled = "ap_invoice.scheduled"
type_text ap_invoice_approved = "ap_invoice.approved"
type_text payment_recorded = "payment.recorded"
type_text payment_received = "payment.received"
type_text allowance_exception_opened = "allowance.exception.opened"
type_text allowance_exception_resolved = "allowance.exception.resolved"
type_text client_approval_confirmed = "client_approval.confirmed"

-- `VALID_EVENT_TYPES`
abbrev pub valid_event_types : List PersistenceEventType
valid_event_types =
    project_created ∷ capture_recorded ∷ transcript_reviewed ∷ scaffold_generated ∷ scaffold_refined
    ∷ decision_drafted ∷ decision_approved ∷ actuals_recorded ∷ kb_ingested ∷ proposal_drafted
    ∷ proposal_edited ∷ proposal_accepted ∷ proposal_sent ∷ client_created
    ∷ daily_log_entry_captured ∷ daily_log_facts_extracted ∷ daily_log_drift_detected
    ∷ relay_card_surfaced ∷ relay_card_reviewed ∷ suggestion_overridden ∷ correction_classified
    ∷ send_gate_evaluated ∷ export_requested ∷ calibration_answered ∷ invoice_created ∷ invoice_sent
    ∷ ap_invoice_scheduled ∷ ap_invoice_approved ∷ payment_recorded ∷ payment_received
    ∷ allowance_exception_opened ∷ allowance_exception_resolved ∷ client_approval_confirmed ∷ []

-- The type that a text names, if it is one of the set.
unfoldable pub event_type_of : String → Option PersistenceEventType
event_type_of s = find (λ t. type_text t == s) valid_event_types

abbrev pub is_source_refs_optional : PersistenceEventType → Bool
is_source_refs_optional project_created = true
is_source_refs_optional kb_ingested = true
is_source_refs_optional calibration_answered = true
is_source_refs_optional export_requested = true
is_source_refs_optional _ = false

-- `set.has(value)`
abbrev pub is_one_of : List String → Value → Bool
is_one_of allowed (text s) = includes allowed s
is_one_of allowed _ = false

abbrev pub valid_tenant_ids : List String
valid_tenant_ids = "tenant_ggr" ∷ "tenant_valle" ∷ "tenant_hpg" ∷ []

abbrev pub valid_actor_roles : List String
valid_actor_roles = "owner" ∷ "estimator" ∷ "pm" ∷ "field_super" ∷ "office" ∷ []

abbrev pub valid_archetypes : List String
valid_archetypes = "kitchen_remodel" ∷ "bath_remodel" ∷ "outdoor_kitchen" ∷ "deck" ∷ []

abbrev pub valid_correction_scopes : List String
valid_correction_scopes =
    "universal" ∷ "situational" ∷ "tenant_wide" ∷ "project_specific" ∷ "role_specific" ∷ "one_off"
    ∷ []

abbrev pub valid_memory_localities : List String
valid_memory_localities =
    "tenant_private" ∷ "archetype_default_candidate" ∷ "platform_canon_candidate"
    ∷ "eval_replay_case" ∷ "no_learn" ∷ []

abbrev pub valid_evidence_source_classes : List String
valid_evidence_source_classes =
    "dogfood_ggr" ∷ "dogfood_valle" ∷ "dogfood_hpg" ∷ "paid_tenant" ∷ "external_research"
    ∷ "synthetic_eval" ∷ "support_observation" ∷ []

abbrev pub valid_classification_methods : List String
valid_classification_methods = "inferred" ∷ "operator_confirmed" ∷ "operator_overridden" ∷ []

abbrev pub valid_export_formats : List String
valid_export_formats = "pdf" ∷ "csv" ∷ "xlsx" ∷ "iif" ∷ "print" ∷ []

abbrev pub valid_send_gate_actions : List String
valid_send_gate_actions = "send" ∷ "back_to_draft" ∷ "export_pdf" ∷ "inspected" ∷ []

abbrev pub valid_invoice_send_channels : List String
valid_invoice_send_channels = "email" ∷ "paper" ∷ "portal" ∷ []

abbrev pub valid_payment_methods : List String
valid_payment_methods = "ach" ∷ "check" ∷ "wire" ∷ "card" ∷ "cash" ∷ "other" ∷ []

abbrev pub valid_reconciliation_methods : List String
valid_reconciliation_methods = "bank_feed" ∷ "manual_reconcile" ∷ "operator_confirmed" ∷ []

abbrev pub valid_allowance_directions : List String
valid_allowance_directions = "over" ∷ "under" ∷ []

abbrev pub valid_allowance_resolutions : List String
valid_allowance_resolutions = "absorbed" ∷ "change_order" ∷ "client_billed" ∷ "reversed" ∷ []

abbrev pub valid_daily_log_entry_kinds : List String
valid_daily_log_entry_kinds =
    "morning_brief" ∷ "progress_update" ∷ "blocker" ∷ "change_signal" ∷ "safety_note" ∷ "end_of_day"
    ∷ "clock_event" ∷ []

abbrev pub valid_clock_sub_kinds : List String
valid_clock_sub_kinds =
    "clock_in" ∷ "clock_out" ∷ "lunch_start" ∷ "lunch_end" ∷ "break_start" ∷ "break_end" ∷ []

abbrev pub valid_drift_severities : List String
valid_drift_severities = "info" ∷ "caution" ∷ "warn" ∷ "block" ∷ []

abbrev pub valid_relay_review_outcomes : List String
valid_relay_review_outcomes = "acknowledged" ∷ "actioned" ∷ "dismissed" ∷ []

abbrev pub valid_source_ref_kinds : List String
valid_source_ref_kinds = "voice" ∷ "photo" ∷ "transcript" ∷ "doc" ∷ "external" ∷ []
