-- ===== src/Workflows.antt =====
-- The follow-up of overdue invoices (src/workflows/invoice-followup.ts).
pub mod InvoiceFacts
pub mod InvoiceDetection
pub mod InvoicePacket
pub mod InvoiceApproval
pub mod PaymentLaws
pub mod DetectionLaws
pub mod InvoiceLaws
mod Examples
