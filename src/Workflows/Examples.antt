-- ===== src/Workflows/Examples.antt =====
-- The follow-up of src/workflows/invoice-followup.ts on a concrete invoice.
use kerf_app.Common.{
  [], if◌then◌else◌, none, not, number_eq, some, text_eq, true, ◌==◌, ◌∷◌, ◌≡◌, ◌≢◌,
}
use kerf_app.Common.Int.{pos}
use kerf_app.Common.Text.{codes, is_before}
use kerf_app.Altitude.Types.{block_external_send, flag_eq, role_visibility_eq, validator_id_eq}
use kerf_app.Altitude.GateTypes.{GateClock}
use kerf_app.Workflows.InvoiceFacts.{
  InvoiceFollowupCandidate, InvoiceFollowupDraft, InvoiceFollowupFacts, overdue,
}
use kerf_app.Workflows.InvoiceDetection.{Calendar, InvoiceFollowupDetectionOpts}
use kerf_app.Workflows.InvoicePacket.{InvoiceFollowupPacketOpts, gated_invoice_followup}
use kerf_app.Workflows.InvoiceApproval.{
  InvoiceFollowupApprovalRequest, apply_invoice_followup_approval_action, decide_edit,
}
use kerf_app.Workflows.InvoiceLaws.{
  IsDecided, apply_approval-IsDecided, gated_invoice_followup-blocked,
}

abbrev candidate : InvoiceFollowupCandidate
candidate = record {
  id = "if_inv_7";
  invoice_id = "inv_7";
  invoice_number = some "1007";
  client_id = "client_2";
  project_id = "project_1";
  remaining_cents = pos 125000;
  due_date = "2026-04-01T00:00:00.000Z";
  days_past_due = 34;
  status = overdue;
  amount_cents = pos 200000;
  paid_cents = pos 75000;
  client_name = "Lee";
  client_email = none;
  project_name = "Kitchen";
  as_of = "2026-05-05T00:00:00.000Z";
}

abbrev reminder : InvoiceFollowupDraft
reminder = record {
  id = "if_inv_7";
  invoice_id = "inv_7";
  invoice_number = some "1007";
  remaining_cents = pos 125000;
  days_past_due = 34;
  message = "Hi Lee, a quick reminder.";
}

abbrev packet_opts : InvoiceFollowupPacketOpts
packet_opts = record {
  tenant_id = "tenant_ggr";
  evaluated_at = "2026-05-05T00:00:00.000Z";
  jurisdiction = none;
  model_source_id = none;
  packet_id_suffix = none;
  gate_run_id = none;
}

abbrev clock : GateClock
clock = record {
  now_iso = "2026-05-05T00:00:00.000Z";
  elapsed = λ id. pos 1;
  total_elapsed = pos 9;
}

gated_invoice_followup-blocked_example :
    let r = (gated_invoice_followup candidate reminder packet_opts clock).1.policy_gate_result in
    (r.allowed ≢ true) × (r.safe_next_action ≡ block_external_send)
gated_invoice_followup-blocked_example =
    gated_invoice_followup-blocked candidate reminder packet_opts clock

abbrev request : InvoiceFollowupApprovalRequest
request = record { id = "if_inv_7_approval"; draft = reminder }

apply_approval-IsDecided_example :
    IsDecided request
      (decide_edit " Hi Lee ")
      "2026-05-06"
      (apply_invoice_followup_approval_action request (decide_edit " Hi Lee ") "2026-05-06")
apply_approval-IsDecided_example =
    apply_approval-IsDecided request (decide_edit " Hi Lee ") "2026-05-06"

-- A calendar that knows two dates, and a bookkeeping with one invoice.
abbrev calendar : Calendar
calendar = record {
  millis = λ s. if s == "2026-04-01" then 1775001600000 else 1777939200000;
  iso = λ n. "2026-04-01T00:00:00.000Z";
  is_ordered = λ a b. not (is_before (codes b) (codes a));
}

abbrev book : InvoiceFollowupFacts
book = record {
  invoices =
      record {
        id = "inv_7";
        invoice_number = some "1007";
        status = overdue;
        amount_cents = pos 200000;
        due_date = some "2026-04-01";
        client_id = "client_2";
        project_id = "project_1";
      }
      ∷ [];
  clients = record { id = "client_2"; name = "Lee"; email = none } ∷ [];
  projects = record { id = "project_1"; name = "Kitchen" } ∷ [];
  payments = some (
      record {
        id = "pay_1";
        invoice_id = "inv_7";
        amount_cents = pos 75000;
        received_at = "2026-05-01";
      }
      ∷ []);
}

abbrev detection_opts : InvoiceFollowupDetectionOpts
detection_opts = record { now = 1777939200000; min_days_past_due = none; limit = some 5 }

abbrev found : InvoiceFollowupCandidate
found = record {
  id = "if_inv_7";
  invoice_id = "inv_7";
  invoice_number = some "1007";
  client_id = "client_2";
  project_id = "project_1";
  remaining_cents = pos 125000;
  due_date = "2026-04-01T00:00:00.000Z";
  days_past_due = 34;
  status = overdue;
  amount_cents = pos 200000;
  paid_cents = pos 75000;
  client_name = "Lee";
  client_email = none;
  project_name = "Kitchen";
  as_of = "2026-04-01T00:00:00.000Z";
}
