-- ===== src/Persistence/WorkEvents.antt =====
-- src/persistence/events.ts: the checks of the events about
-- projects, captures, scaffolds, decisions and proposals.
use kerf_app.Common.{
  List, String, [], all, false, is_some, leb, or_else, some, ◌&&◌, ◌>?◌, ◌||◌, ◌∷◌,
}
use kerf_app.Common.Text.{◌+++◌}
use kerf_app.Common.Json.{Value, array, is_null, is_object, member}
use kerf_app.Checks.Guards.{
  errors_of, integer_cents, is_array, is_bool, is_iso8601, is_nonempty_text, is_text,
  is_text_or_null, is_undefined, is_unsigned, is_word, require, require_given, require_one_of,
}
use kerf_app.Persistence.Vocabulary.{valid_archetypes, valid_invoice_send_channels}

unfoldable pub validate_project_created : Value → List String
validate_project_created r = errors_of (
    require (is_nonempty_text (member r "project_id")) "project_id must be a non-empty string"
    ∷ require (is_nonempty_text (member r "project_name")) "project_name must be a non-empty string"
    ∷ require (is_nonempty_text (member r "client_name")) "client_name must be a non-empty string"
    ∷ require (is_undefined (member r "jurisdiction") || is_nonempty_text (member r "jurisdiction"))
        "jurisdiction, when present, must be a non-empty string"
    ∷ require
        (is_undefined (member r "archetype_hint") || is_nonempty_text (member r "archetype_hint"))
        "archetype_hint, when present, must be a non-empty string"
    ∷ [])

unfoldable pub validate_capture_recorded : Value → List String
validate_capture_recorded r = errors_of (
    require (is_nonempty_text (member r "capture_id")) "capture_id must be a non-empty string"
    ∷ require (is_text (member r "transcript_text")) "transcript_text must be a string"
    ∷ require (is_null (member r "audio_uri") || is_nonempty_text (member r "audio_uri"))
        "audio_uri must be a non-empty string or null"
    ∷ require (is_unsigned (member r "duration_ms"))
        "duration_ms must be a non-negative finite number"
    ∷ require (is_null (member r "language") || is_nonempty_text (member r "language"))
        "language must be a non-empty string or null"
    ∷ [])

unfoldable pub validate_transcript_reviewed : Value → List String
validate_transcript_reviewed r = errors_of (
    require (is_nonempty_text (member r "capture_id")) "capture_id must be a non-empty string"
    ∷ require (is_object (member r "clarification_answers"))
        "clarification_answers must be an object"
    ∷ require (is_object (member r "source_quotes")) "source_quotes must be an object"
    ∷ [])

unfoldable pub validate_scaffold_generated : Value → List String
validate_scaffold_generated r = errors_of (
    require (is_nonempty_text (member r "scaffold_id")) "scaffold_id must be a non-empty string"
    ∷ require_one_of (member r "archetype") valid_archetypes "archetype must be a non-empty string"
        (λ s. "archetype \"" +++ s +++ "\" is not a known scaffold archetype")
    ∷ require (is_undefined (member r "subtype") || is_nonempty_text (member r "subtype"))
        "subtype, when present, must be a non-empty string"
    ∷ require (is_some (integer_cents (member r "line_count")))
        "line_count must be a non-negative integer"
    ∷ [])

unfoldable pub validate_scaffold_refined : Value → List String
validate_scaffold_refined r = errors_of (
    require (is_nonempty_text (member r "scaffold_id")) "scaffold_id must be a non-empty string"
    ∷ require (is_nonempty_text (member r "line_id")) "line_id must be a non-empty string"
    ∷ require (is_nonempty_text (member r "field")) "field must be a non-empty string"
    ∷ [])

unfoldable pub validate_decision_drafted : Value → List String
validate_decision_drafted r = errors_of (
    require (is_nonempty_text (member r "packet_id")) "packet_id must be a non-empty string"
    ∷ require (is_nonempty_text (member r "safe_next_action"))
        "safe_next_action must be a non-empty string"
    ∷ require (is_array (member r "blocked_reasons")) "blocked_reasons must be an array"
    ∷ require (is_bool (member r "requires_human_approval"))
        "requires_human_approval must be a boolean"
    ∷ [])

unfoldable pub validate_decision_approved : Value → List String
validate_decision_approved r = errors_of (
    require (is_nonempty_text (member r "packet_id")) "packet_id must be a non-empty string"
    ∷ require (is_nonempty_text (member r "approver")) "approver must be a non-empty string"
    ∷ require (is_iso8601 (member r "approved_at")) "approved_at must be an ISO8601 timestamp"
    ∷ [])

unfoldable pub validate_client_approval_confirmed : Value → List String
validate_client_approval_confirmed r = errors_of (
    require (is_nonempty_text (member r "approval_id")) "approval_id must be a non-empty string"
    ∷ require (is_nonempty_text (member r "client_id")) "client_id must be a non-empty string"
    ∷ require (is_nonempty_text (member r "project_id")) "project_id must be a non-empty string"
    ∷ require (is_nonempty_text (member r "project_selection_id"))
        "project_selection_id must be a non-empty string"
    ∷ require
        (is_word (member r "approval_kind") "selection"
          || is_word (member r "approval_kind") "change_order"
          || is_word (member r "approval_kind") "proposal")
        "approval_kind must be selection | change_order | proposal"
    ∷ require (is_some (integer_cents (member r "client_visible_total_cents")))
        "client_visible_total_cents must be a non-negative integer (cents)"
    ∷ require (is_iso8601 (member r "confirmed_at")) "confirmed_at must be an ISO8601 timestamp"
    ∷ [])

unfoldable pub validate_actuals_recorded : Value → List String
validate_actuals_recorded r = errors_of (
    require (is_nonempty_text (member r "writeback_id")) "writeback_id must be a non-empty string"
    ∷ require (is_nonempty_text (member r "line_id")) "line_id must be a non-empty string"
    ∷ require (is_some (integer_cents (member r "actual_cents")))
        "actual_cents must be a non-negative integer (cents — no floats, no formatting)"
    ∷ require (is_text (member r "notes")) "notes must be a string"
    ∷ [])

unfoldable pub validate_kb_ingested : Value → List String
validate_kb_ingested r = errors_of (
    require (is_nonempty_text (member r "ingestion_id")) "ingestion_id must be a non-empty string"
    ∷ require (is_nonempty_text (member r "source_file")) "source_file must be a non-empty string"
    ∷ require (is_some (integer_cents (member r "row_count")))
        "row_count must be a non-negative integer"
    ∷ require
        (or_else (integer_cents (member r "authority_rank") >? λ n. some (leb 1 n && leb n 7))
          false)
        "authority_rank must be an integer in [1, 7] (per blackboard authority ordering)"
    ∷ [])

unfoldable pub validate_proposal_drafted : Value → List String
validate_proposal_drafted r = errors_of (
    require (is_nonempty_text (member r "proposal_id")) "proposal_id must be a non-empty string"
    ∷ require (is_nonempty_text (member r "proposal_number"))
        "proposal_number must be a non-empty string"
    ∷ require
        (is_null (member r "decision_packet_id")
          || is_nonempty_text (member r "decision_packet_id"))
        "decision_packet_id must be a non-empty string or null"
    ∷ require (is_some (integer_cents (member r "division_count")))
        "division_count must be a non-negative integer"
    ∷ require (is_some (integer_cents (member r "line_count")))
        "line_count must be a non-negative integer"
    ∷ require (is_some (integer_cents (member r "total_cents")))
        "total_cents must be a non-negative integer (cents — no floats, no formatting)"
    ∷ [])

unfoldable pub validate_proposal_edited : Value → List String
validate_proposal_edited r = errors_of (
    require (is_nonempty_text (member r "proposal_id")) "proposal_id must be a non-empty string"
    ∷ require (is_nonempty_text (member r "field")) "field must be a non-empty string"
    ∷ [])

unfoldable pub validate_proposal_accepted : Value → List String
validate_proposal_accepted r = errors_of (
    require (is_nonempty_text (member r "proposal_id")) "proposal_id must be a non-empty string"
    ∷ require (is_nonempty_text (member r "accepted_by")) "accepted_by must be a non-empty string"
    ∷ require (is_iso8601 (member r "accepted_at")) "accepted_at must be an ISO8601 timestamp"
    ∷ require (is_some (integer_cents (member r "total_cents")))
        "total_cents must be a non-negative integer (cents — no floats, no formatting)"
    ∷ [])

unfoldable pub validate_proposal_sent : Value → List String
validate_proposal_sent r = errors_of (
    require (is_nonempty_text (member r "proposal_id")) "proposal_id must be a non-empty string"
    ∷ require (is_nonempty_text (member r "proposal_number"))
        "proposal_number must be a non-empty string"
    ∷ require (is_nonempty_text (member r "sent_to")) "sent_to must be a non-empty string"
    ∷ require (is_iso8601 (member r "sent_at")) "sent_at must be an ISO8601 timestamp"
    ∷ require (is_nonempty_text (member r "send_gate_event_id"))
        "send_gate_event_id must be a non-empty string"
    ∷ require_one_of (member r "send_channel") valid_invoice_send_channels
        "send_channel must be a non-empty string"
        (λ s. "send_channel \"" +++ s +++ "\" is not recognized (expected email|paper|portal)")
    ∷ [])

unfoldable pub validate_client_created : Value → List String
validate_client_created r = errors_of (
    require (is_nonempty_text (member r "client_id")) "client_id must be a non-empty string"
    ∷ require (is_nonempty_text (member r "display_name")) "display_name must be a non-empty string"
    ∷ require (is_text_or_null (member r "contact_email")) "contact_email must be a string or null"
    ∷ require (is_text_or_null (member r "contact_phone")) "contact_phone must be a string or null"
    ∷ require_given (array (member r "address_lines")) "address_lines must be an array"
        (λ lines. require (all is_text lines) "address_lines entries must be strings")
    ∷ [])
