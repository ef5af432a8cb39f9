-- ===== src/Workflows/InvoiceApproval.antt =====
-- src/workflows/invoice-followup.ts: the request for an approval and what is decided on it.
use kerf_app.Common.{Option, String, if◌then◌else◌, none, not, or_else, some, ◌>?◌}
use kerf_app.Common.Text.{is_nonempty, trim, ◌+++◌}
use kerf_app.Workflows.InvoiceFacts.{InvoiceFollowupDraft}

pub data InvoiceFollowupApprovalState : Type 0 where
  state_approved state_edited state_rejected : InvoiceFollowupApprovalState

pub data ApprovalEventKind : Type 0 where
  followup_approved followup_rejected : ApprovalEventKind

-- Of the action classes the two that an approval has.
pub data ApprovalActionClass : Type 0 where
  send_external only_draft : ApprovalActionClass

pub record InvoiceFollowupApprovalRequest : Type 0 where
  pub id : String
  pub draft : InvoiceFollowupDraft

pub data InvoiceFollowupApprovalDecision : Type 0 where
  decide_approve : InvoiceFollowupApprovalDecision
  decide_edit : String → InvoiceFollowupApprovalDecision
  decide_reject : Option String → InvoiceFollowupApprovalDecision

pub record InvoiceFollowupApprovalResult : Type 0 where
  pub id : String
  pub state : InvoiceFollowupApprovalState
  pub original_message : String
  pub approved_message : Option String
  pub rejection_reason : Option String
  pub decided_at : String
  pub event_kind : ApprovalEventKind
  pub action_class : ApprovalActionClass

unfoldable pub request_invoice_followup_approval :
    InvoiceFollowupDraft → Option String → InvoiceFollowupApprovalRequest
request_invoice_followup_approval draft request_id = record {
  id = or_else request_id (draft.id +++ "_approval");
  draft = draft;
}

-- `requireEditedMessage`; a blank message throws.
unfoldable pub require_edited_message : String → Option String
require_edited_message message =
    let trimmed = trim message in if not (is_nonempty trimmed) then none else some trimmed

abbrev pub approved_result :
    InvoiceFollowupApprovalRequest
    → InvoiceFollowupApprovalState
    → String
    → String
    → InvoiceFollowupApprovalResult
approved_result request state message decided_at = record {
  id = request.id;
  state = state;
  original_message = request.draft.message;
  approved_message = some message;
  rejection_reason = none;
  decided_at = decided_at;
  event_kind = followup_approved;
  action_class = send_external;
}

abbrev pub rejected_result :
    InvoiceFollowupApprovalRequest → Option String → String → InvoiceFollowupApprovalResult
rejected_result request reason decided_at = record {
  id = request.id;
  state = state_rejected;
  original_message = request.draft.message;
  approved_message = none;
  rejection_reason = reason;
  decided_at = decided_at;
  event_kind = followup_rejected;
  action_class = only_draft;
}

-- `none` is the error of a blank message.
unfoldable pub apply_invoice_followup_approval_action :
    InvoiceFollowupApprovalRequest
    → InvoiceFollowupApprovalDecision
    → String
    → Option InvoiceFollowupApprovalResult
apply_invoice_followup_approval_action request decide_approve decided_at =
    some (approved_result request state_approved request.draft.message decided_at)
apply_invoice_followup_approval_action request (decide_edit message) decided_at =
    require_edited_message message
    >? (λ trimmed. some (approved_result request state_edited trimmed decided_at))
apply_invoice_followup_approval_action request (decide_reject reason) decided_at =
    some (rejected_result request reason decided_at)
