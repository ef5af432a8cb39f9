-- ===== src/Workflows/InvoiceFacts.antt =====
-- src/workflows/invoice-followup.ts: the facts, the candidate and the draft. The events and the
-- facts about their sources, which are written out for a reader, are left out.
use kerf_app.Common.{List, Option, String, ℕ}
use kerf_app.Common.Int.{ℤ}

pub data InvoiceFollowupInvoiceStatus : Type 0 where
  draft sent viewed partial overdue paid void : InvoiceFollowupInvoiceStatus

-- A null number or date is `none`.
pub record InvoiceFollowupInvoiceFact : Type 0 where
  pub id : String
  pub invoice_number : Option String
  pub status : InvoiceFollowupInvoiceStatus
  pub amount_cents : ℤ
  pub due_date : Option String
  pub client_id : String
  pub project_id : String

pub record InvoiceFollowupClientFact : Type 0 where
  pub id : String
  pub name : String
  pub email : Option String

pub record InvoiceFollowupProjectFact : Type 0 where
  pub id : String
  pub name : String

pub record InvoiceFollowupPaymentFact : Type 0 where
  pub id : String
  pub invoice_id : String
  pub amount_cents : ℤ
  pub received_at : String

pub record InvoiceFollowupFacts : Type 0 where
  pub invoices : List InvoiceFollowupInvoiceFact
  pub clients : List InvoiceFollowupClientFact
  pub projects : List InvoiceFollowupProjectFact
  pub payments : Option (List InvoiceFollowupPaymentFact)

pub record InvoiceFollowupCandidate : Type 0 where
  pub id : String
  pub invoice_id : String
  pub invoice_number : Option String
  pub client_id : String
  pub project_id : String
  pub remaining_cents : ℤ
  pub due_date : String
  pub days_past_due : ℕ
  pub status : InvoiceFollowupInvoiceStatus
  pub amount_cents : ℤ
  pub paid_cents : ℤ
  pub client_name : String
  pub client_email : Option String
  pub project_name : String
  pub as_of : String

-- Of a draft the later steps read the candidate's data and the message.
pub record InvoiceFollowupDraft : Type 0 where
  pub id : String
  pub invoice_id : String
  pub invoice_number : Option String
  pub remaining_cents : ℤ
  pub days_past_due : ℕ
  pub message : String
