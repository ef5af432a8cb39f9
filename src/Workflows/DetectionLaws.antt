-- ===== src/Workflows/DetectionLaws.antt =====
-- Which candidates src/workflows/invoice-followup.ts detects.
use kerf_app.Common.{Member, String, [], or_else, some, ◌≡◌}
use kerf_app.Common.Int.{pos, ◌-ℤ◌, ◌<ℤ◌, ◌≤ℤ◌}
use kerf_app.Workflows.InvoiceFacts.{
  InvoiceFollowupCandidate, InvoiceFollowupFacts, InvoiceFollowupInvoiceFact,
}
use kerf_app.Workflows.InvoiceDetection.{Calendar, InvoiceFollowupDetectionOpts}
use kerf_app.Workflows.PaymentLaws.{IsDaysBetween, IsOpen, Pays}

-- A candidate is due: it comes from an invoice of an eligible status, whose due date is so many
-- days ago, at least as many as asked for, and of which something is left to pay.
pub record IsDue (cal : Calendar) (facts : InvoiceFollowupFacts)
    (opts : InvoiceFollowupDetectionOpts) (c : InvoiceFollowupCandidate) : Type 0 where
  pub inv : InvoiceFollowupInvoiceFact
  pub listed : Member inv facts.invoices
  pub eligible : IsOpen inv.status
  pub due : String
  pub has_due : inv.due_date ≡ some due
  pub same_invoice : c.invoice_id ≡ inv.id
  pub same_due : c.due_date ≡ cal.iso (cal.millis due)
  pub days : IsDaysBetween (cal.millis due) opts.now c.days_past_due
  pub late : or_else opts.min_days_past_due (pos 1) ≤ℤ pos c.days_past_due
  pub paid_so_far : Pays cal inv.id opts.now (pos 0) (or_else facts.payments []) c.paid_cents
  pub remaining : c.remaining_cents ≡ (inv.amount_cents -ℤ c.paid_cents)
  pub positive : pos 0 <ℤ c.remaining_cents
