-- ===== src/Persistence/MoneyEvents.antt =====
-- src/persistence/events.ts: the checks of the events about
-- invoices, payments and allowances.
use kerf_app.Common.{List, String, [], is_some, ◌||◌, ◌∷◌}
use kerf_app.Common.Text.{◌+++◌}
use kerf_app.Common.Json.{Value, is_null, member}
use kerf_app.Checks.Guards.{
  errors_of, integer_cents, is_iso8601, is_nonempty_text, is_text, require, require_one_of,
}
use kerf_app.Persistence.Vocabulary.{
  valid_allowance_directions, valid_allowance_resolutions, valid_invoice_send_channels,
  valid_payment_methods, valid_reconciliation_methods,
}

unfoldable pub validate_invoice_created : Value → List String
validate_invoice_created r = errors_of (
    require (is_nonempty_text (member r "invoice_id")) "invoice_id must be a non-empty string"
    ∷ require (is_nonempty_text (member r "invoice_number"))
        "invoice_number must be a non-empty string"
    ∷ require (is_nonempty_text (member r "project_id")) "project_id must be a non-empty string"
    ∷ require (is_nonempty_text (member r "client_id")) "client_id must be a non-empty string"
    ∷ require (is_some (integer_cents (member r "total_cents")))
        "total_cents must be a non-negative integer (cents — no floats, no formatting)"
    ∷ require (is_nonempty_text (member r "due_date"))
        "due_date must be a non-empty string (ISO8601 date)"
    ∷ [])

unfoldable pub validate_invoice_sent : Value → List String
validate_invoice_sent r = errors_of (
    require (is_nonempty_text (member r "invoice_id")) "invoice_id must be a non-empty string"
    ∷ require (is_nonempty_text (member r "sent_to")) "sent_to must be a non-empty string"
    ∷ require (is_iso8601 (member r "sent_at")) "sent_at must be an ISO8601 timestamp"
    ∷ require_one_of (member r "send_channel") valid_invoice_send_channels
        "send_channel must be a non-empty string"
        (λ s. "send_channel \"" +++ s +++ "\" is not recognized (expected email|paper|portal)")
    ∷ [])

unfoldable pub validate_ap_invoice_scheduled : Value → List String
validate_ap_invoice_scheduled r = errors_of (
    require (is_nonempty_text (member r "ap_invoice_id")) "ap_invoice_id must be a non-empty string"
    ∷ require (is_nonempty_text (member r "vendor_id")) "vendor_id must be a non-empty string"
    ∷ require (is_nonempty_text (member r "project_id")) "project_id must be a non-empty string"
    ∷ require (is_some (integer_cents (member r "total_cents")))
        "total_cents must be a non-negative integer (cents — no floats, no formatting)"
    ∷ require (is_nonempty_text (member r "scheduled_pay_date"))
        "scheduled_pay_date must be a non-empty string (ISO8601 date)"
    ∷ [])

unfoldable pub validate_ap_invoice_approved : Value → List String
validate_ap_invoice_approved r = errors_of (
    require (is_nonempty_text (member r "ap_invoice_id")) "ap_invoice_id must be a non-empty string"
    ∷ require (is_nonempty_text (member r "approver")) "approver must be a non-empty string"
    ∷ require (is_iso8601 (member r "approved_at")) "approved_at must be an ISO8601 timestamp"
    ∷ require (is_some (integer_cents (member r "total_cents")))
        "total_cents must be a non-negative integer (cents — no floats, no formatting)"
    ∷ [])

unfoldable pub validate_payment_recorded : Value → List String
validate_payment_recorded r = errors_of (
    require (is_nonempty_text (member r "payment_id")) "payment_id must be a non-empty string"
    ∷ require (is_null (member r "invoice_id") || is_nonempty_text (member r "invoice_id"))
        "invoice_id must be a non-empty string or null"
    ∷ require (is_some (integer_cents (member r "amount_cents")))
        "amount_cents must be a non-negative integer (cents — no floats, no formatting)"
    ∷ require (is_iso8601 (member r "received_at")) "received_at must be an ISO8601 timestamp"
    ∷ require_one_of (member r "payment_method") valid_payment_methods
        "payment_method must be a non-empty string"
        (λ s.
          "payment_method \"" +++ s
          +++ "\" is not recognized (expected ach|check|wire|card|cash|other)")
    ∷ [])

unfoldable pub validate_payment_received : Value → List String
validate_payment_received r = errors_of (
    require (is_nonempty_text (member r "payment_id")) "payment_id must be a non-empty string"
    ∷ require_one_of (member r "reconciliation_method") valid_reconciliation_methods
        "reconciliation_method must be a non-empty string"
        (λ s.
          "reconciliation_method \"" +++ s
          +++ "\" is not recognized (expected bank_feed|manual_reconcile|operator_confirmed)")
    ∷ require (is_iso8601 (member r "cleared_at")) "cleared_at must be an ISO8601 timestamp"
    ∷ require (is_null (member r "bank_reference") || is_nonempty_text (member r "bank_reference"))
        "bank_reference must be a non-empty string or null"
    ∷ [])

unfoldable pub validate_allowance_exception_opened : Value → List String
validate_allowance_exception_opened r = errors_of (
    require (is_nonempty_text (member r "exception_id")) "exception_id must be a non-empty string"
    ∷ require (is_nonempty_text (member r "project_id")) "project_id must be a non-empty string"
    ∷ require (is_nonempty_text (member r "allowance_line_id"))
        "allowance_line_id must be a non-empty string"
    ∷ require_one_of (member r "direction") valid_allowance_directions
        "direction must be a non-empty string"
        (λ s. "direction \"" +++ s +++ "\" is not recognized (expected over|under)")
    ∷ require (is_some (integer_cents (member r "delta_cents")))
        "delta_cents must be a non-negative integer magnitude (sign carried by direction)"
    ∷ require (is_some (integer_cents (member r "threshold_cents")))
        "threshold_cents must be a non-negative integer"
    ∷ [])

unfoldable pub validate_allowance_exception_resolved : Value → List String
validate_allowance_exception_resolved r = errors_of (
    require (is_nonempty_text (member r "exception_id")) "exception_id must be a non-empty string"
    ∷ require (is_nonempty_text (member r "resolved_by")) "resolved_by must be a non-empty string"
    ∷ require (is_iso8601 (member r "resolved_at")) "resolved_at must be an ISO8601 timestamp"
    ∷ require_one_of (member r "resolution") valid_allowance_resolutions
        "resolution must be a non-empty string"
        (λ s.
          "resolution \"" +++ s
          +++ "\" is not recognized (expected absorbed|change_order|client_billed|reversed)")
    ∷ require (is_text (member r "resolution_notes"))
        "resolution_notes must be a string (may be empty)"
    ∷ [])
