-- ===== src/Persistence/LearningEvents.antt =====
-- src/persistence/events.ts: the checks of the events about
-- corrections, the send gate, exports and calibration.
use kerf_app.Common.{
  List, String, [], false, if◌then◌else◌, is_empty, is_some, not, or_else, some, ◌&&◌, ◌++◌, ◌>?◌,
  ◌||◌, ◌∷◌,
}
use kerf_app.Common.Text.{◌+++◌}
use kerf_app.Common.Json.{
  Value, array, as_finite, has_member, is_at_most_one, is_negative, is_null, member,
}
use kerf_app.Checks.Guards.{
  errors_of, integer_cents, is_bool, is_false, is_nonempty_text, is_true, is_word, require,
  require_given, require_object, require_one_of, validate_each,
}
use kerf_app.Persistence.Vocabulary.{
  is_one_of, valid_classification_methods, valid_correction_scopes, valid_evidence_source_classes,
  valid_export_formats, valid_memory_localities, valid_send_gate_actions,
}
use kerf_app.Persistence.FieldEvents.{require_text}

abbrev pub require_locality : (Value → String) → Value → String → List String
require_locality text_of v path = require (is_one_of valid_memory_localities v) (
    path
    +++ " \""
    +++ text_of v
    +++ "\" is not a recognized MemoryLocality (expected tenant_private|archetype_default_candidate|platform_canon_candidate|eval_replay_case|no_learn)")

unfoldable pub validate_send_gate_check : Value → String → List String
validate_send_gate_check check path = require_object check (path +++ " must be an object") (
    require (is_nonempty_text (member check "name")) (path +++ ".name must be a non-empty string")
    ++ (require (is_bool (member check "pass")) (path +++ ".pass must be a boolean")
        ++ require (is_null (member check "reason") || is_nonempty_text (member check "reason"))
            (path +++ ".reason must be a non-empty string or null")))

-- A question is answered, or it is skipped and has no answer.
abbrev pub answer_errors : Value → Value → List String
answer_errors skipped answer =
    if is_true skipped
    then require (is_null answer) "answer must be null when skipped=true"
    else if is_false skipped
    then require (is_nonempty_text answer) "answer must be a non-empty string when skipped=false"
    else []

unfoldable pub validate_suggestion_overridden : Value → List String
validate_suggestion_overridden r = errors_of (
    require (is_nonempty_text (member r "suggestion_id")) "suggestion_id must be a non-empty string"
    ∷ require (is_nonempty_text (member r "surface")) "surface must be a non-empty string"
    ∷ require (has_member r "suggestion_payload")
        "suggestion_payload must be present (any JSON-serializable value)"
    ∷ require (has_member r "chosen_alternative")
        "chosen_alternative must be present (any JSON-serializable value, may be null)"
    ∷ require (is_null (member r "reason_text") || is_nonempty_text (member r "reason_text"))
        "reason_text must be a non-empty string or null"
    ∷ [])

unfoldable pub validate_correction_classified : (Value → String) → Value → List String
validate_correction_classified text_of r = errors_of (
    require (is_nonempty_text (member r "correction_event_id"))
      "correction_event_id must be a non-empty string"
    ∷ require_one_of (member r "correction_scope") valid_correction_scopes
        "correction_scope must be a non-empty string"
        (λ s.
          "correction_scope \"" +++ s
          +++ "\" is not a recognized CorrectionScope (expected universal|situational|tenant_wide|project_specific|role_specific|one_off)")
    ∷ require_given (array (member r "memory_locality"))
        "memory_locality must be an array (multi-locality permitted)"
        (λ localities.
          require (not (is_empty localities)) "memory_locality must contain at least one value"
          ++ validate_each (require_locality text_of) "memory_locality" 0 localities)
    ∷ require_one_of (member r "evidence_source_class") valid_evidence_source_classes
        "evidence_source_class must be a non-empty string"
        (λ s.
          "evidence_source_class \"" +++ s
          +++ "\" is not a recognized EvidenceSourceClass (expected dogfood_ggr|dogfood_valle|dogfood_hpg|paid_tenant|external_research|synthetic_eval|support_observation)")
    ∷ require_one_of (member r "classification_method") valid_classification_methods
        "classification_method must be a non-empty string"
        (λ s.
          "classification_method \"" +++ s
          +++ "\" is not recognized (expected inferred|operator_confirmed|operator_overridden)")
    ∷ require
        (or_else
          (as_finite (member r "confidence") >? λ q. some (not (is_negative q) && is_at_most_one q))
          false)
        "confidence must be a finite number in [0, 1]"
    ∷ require_given (array (member r "operator_rule_refs"))
        "operator_rule_refs must be an array (may be empty)"
        (validate_each require_text "operator_rule_refs" 0)
    ∷ [])

unfoldable pub validate_send_gate_evaluated : Value → List String
validate_send_gate_evaluated r = errors_of (
    require (is_nonempty_text (member r "artifact_id")) "artifact_id must be a non-empty string"
    ∷ require (is_nonempty_text (member r "surface")) "surface must be a non-empty string"
    ∷ require_given (array (member r "checks")) "checks must be an array" (λ checks.
      require (not (is_empty checks)) "checks must contain at least one entry"
      ++ validate_each validate_send_gate_check "checks" 0 checks)
    ∷ require (is_bool (member r "all_passed")) "all_passed must be a boolean"
    ∷ (if is_null (member r "operator_action")
        then []
        else require_one_of (member r "operator_action") valid_send_gate_actions
            "operator_action must be null or a recognized action string"
            (λ s.
              "operator_action \"" +++ s
              +++ "\" is not recognized (expected send|back_to_draft|export_pdf|inspected, or null)"))
    ∷ [])

unfoldable pub validate_export_requested : Value → List String
validate_export_requested r = errors_of (
    require (is_nonempty_text (member r "surface")) "surface must be a non-empty string"
    ∷ require_one_of (member r "format") valid_export_formats "format must be a non-empty string"
        (λ s. "format \"" +++ s +++ "\" is not recognized (expected pdf|csv|xlsx|iif|print)")
    ∷ require
        (is_null (member r "scope_descriptor") || is_nonempty_text (member r "scope_descriptor"))
        "scope_descriptor must be a non-empty string or null"
    ∷ require (is_bool (member r "owner_private")) "owner_private must be a boolean"
    ∷ require (is_null (member r "item_count") || is_some (integer_cents (member r "item_count")))
        "item_count must be a non-negative integer or null"
    ∷ require
        (not (is_true (member r "owner_private"))
          || is_word (member r "format") "pdf"
          || is_word (member r "format") "print")
        "owner_private exports must use format=pdf or format=print (CSV/XLSX/IIF data-egress-restricted on owner-private surfaces per Lane 7B canon)"
    ∷ [])

unfoldable pub validate_calibration_answered : Value → List String
validate_calibration_answered r = errors_of (
    require (is_nonempty_text (member r "question_id")) "question_id must be a non-empty string"
    ∷ require (is_nonempty_text (member r "prompt")) "prompt must be a non-empty string"
    ∷ require (is_bool (member r "skipped")) "skipped must be a boolean"
    ∷ answer_errors (member r "skipped") (member r "answer")
    ∷ require (is_nonempty_text (member r "surface")) "surface must be a non-empty string"
    ∷ (if is_null (member r "intended_scope")
        then []
        else require_one_of (member r "intended_scope") valid_correction_scopes
            "intended_scope must be null or a recognized CorrectionScope"
            (λ s. "intended_scope \"" +++ s +++ "\" is not a recognized CorrectionScope"))
    ∷ [])
