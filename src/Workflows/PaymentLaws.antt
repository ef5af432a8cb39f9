-- ===== src/Workflows/PaymentLaws.antt =====
-- The status, the payments and the days of an invoice (src/workflows/invoice-followup.ts).
use kerf_app.Common.{
  Bool-cases, List, String, [], arith, false, inl, inr, keep, leb, leb_iff, map, number_eq, text_eq,
  true, ℕ, ◌+◌, ◌/◌, ◌<◌, ◌==◌, ◌↔◌, ◌∷◌, ◌≡◌, ◌≢◌, ◌≤◌, ◌⊎◌,
}
use kerf_app.Common.Int.{pos, ℤ}
use kerf_app.Workflows.InvoiceFacts.{
  InvoiceFollowupInvoiceStatus, InvoiceFollowupPaymentFact, overdue, partial, sent, viewed,
}
use kerf_app.Workflows.InvoiceDetection.{
  Calendar, add_cents, calculate_days_past_due, is_eligible_status, sum_invoice_payments, ◌+ℤ◌,
}

-- The statuses of an invoice that is followed up.
abbrev pub IsOpen : InvoiceFollowupInvoiceStatus → Type 0
IsOpen s = (s ≡ sent) ⊎ (s ≡ viewed) ⊎ (s ≡ partial) ⊎ (s ≡ overdue)

pub IsOpen-iff : (s : InvoiceFollowupInvoiceStatus) → (is_eligible_status s ≡ true) ↔ IsOpen s
IsOpen-iff s = ground arith

-- The payments that count take an amount to another: those of the invoice that are received by now.
pub data Pays (cal : Calendar) (invoice_id : String) (now : ℕ)
    : ℤ → List InvoiceFollowupPaymentFact → ℤ → Type 0 where
  done : (t : ℤ) → Pays cal invoice_id now t [] t
  counted :
      (p : InvoiceFollowupPaymentFact) (ps : List InvoiceFollowupPaymentFact) (s t : ℤ)
      → p.invoice_id ≡ invoice_id
      → cal.millis p.received_at ≤ now
      → Pays cal invoice_id now (s +ℤ p.amount_cents) ps t
      → Pays cal invoice_id now s (p ∷ ps) t
  passed :
      (p : InvoiceFollowupPaymentFact) (ps : List InvoiceFollowupPaymentFact) (s t : ℤ)
      → (p.invoice_id ≢ invoice_id) ⊎ (now < cal.millis p.received_at)
      → Pays cal invoice_id now s ps t
      → Pays cal invoice_id now s (p ∷ ps) t

-- The payments that `sumInvoicePayments` keeps.
abbrev pub kept :
    Calendar → String → ℕ → List InvoiceFollowupPaymentFact → List InvoiceFollowupPaymentFact
kept cal invoice_id now payments =
    keep (λ (p : InvoiceFollowupPaymentFact). leb (cal.millis p.received_at) now)
      (keep (λ (p : InvoiceFollowupPaymentFact). p.invoice_id == invoice_id) payments)

past_lem : (a b : ℕ) → leb a b ≡ false → b < a
past_lem a b h = ground arith

add_cents-Pays :
    (cal : Calendar) (invoice_id : String) (now : ℕ) (payments : List InvoiceFollowupPaymentFact)
    (s : ℤ)
    → Pays cal invoice_id now s payments (
        add_cents
          (map
            (λ (p : InvoiceFollowupPaymentFact). p.amount_cents)
            (kept cal invoice_id now payments))
          s)
add_cents-Pays cal invoice_id now [] s = done s
add_cents-Pays cal invoice_id now (p ∷ ps) s = elim (Bool-cases (p.invoice_id == invoice_id)) [
  | inl mine ↦ elim (Bool-cases (leb (cal.millis p.received_at) now)) [
    | inl received ↦ rw mine (
        rw received (
          counted p ps s _ ((text_eq.eqb_iff _ _).0 mine) ((leb_iff _ _).0 received)
            (add_cents-Pays cal invoice_id now ps (s +ℤ p.amount_cents))))
    | inr later ↦ rw mine (
        rw later
          (passed p ps s _ (inr (past_lem _ _ later)) (add_cents-Pays cal invoice_id now ps s)))
  ]
  | inr other ↦ rw other (
      passed p ps s _ (inl (λ same. let yes = (text_eq.eqb_iff _ _).1 same in cc))
        (add_cents-Pays cal invoice_id now ps s))
]

pub sum_invoice_payments-Pays :
    (cal : Calendar) (invoice_id : String) (payments : List InvoiceFollowupPaymentFact) (now : ℕ)
    → Pays cal invoice_id now (pos 0) payments (sum_invoice_payments cal invoice_id payments now)
unfolding sum_invoice_payments
sum_invoice_payments-Pays cal invoice_id payments now =
    add_cents-Pays cal invoice_id now payments (pos 0)

-- So many days of universal time lie between the two times, or none if the first is later.
abbrev pub IsDaysBetween : ℕ → ℕ → ℕ → Type 0
IsDaysBetween from now days =
    (from / 86400000 + days ≡ now / 86400000) ⊎ ((now / 86400000 < from / 86400000) × (days ≡ 0))

pub calculate_days-IsDaysBetween :
    (from now : ℕ) → IsDaysBetween from now (calculate_days_past_due from now)
unfolding calculate_days_past_due
calculate_days-IsDaysBetween from now = ground arith
