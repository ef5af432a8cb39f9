-- ===== src/Workflows/InvoiceDetection.antt =====
-- src/workflows/invoice-followup.ts: which invoices are followed up. The standard library's dates
-- are given by the functions of a calendar, in milliseconds since 1970: every date text is taken to be
-- one of a valid date that is not before 1970.
use kerf_app.Common.{
  Bool, List, Option, String, [], false, if◌then◌else◌, keep, leb, map, none, not, number_eq,
  or_else, some, sort_ordered, suc, text_eq, true, zero, ℕ, ◌+◌, ◌-◌, ◌/◌, ◌==◌, ◌∷◌,
}
use kerf_app.Common.Int.{leb_ℤ, ltb_ℤ, neg_part, pos, pos_part, sub_ℕ, ℤ, ◌-ℤ◌}
use kerf_app.Common.Text.{codes, is_before, is_nonempty, ◌+++◌}
use kerf_app.Workflows.InvoiceFacts.{
  InvoiceFollowupCandidate, InvoiceFollowupClientFact, InvoiceFollowupFacts,
  InvoiceFollowupInvoiceFact, InvoiceFollowupInvoiceStatus, InvoiceFollowupPaymentFact,
  InvoiceFollowupProjectFact, overdue, partial, sent, viewed,
}

-- `new Date(s).getTime()`, `toISOString` and `a.localeCompare(b) <= 0`.
pub record Calendar : Type 0 where
  pub millis : String → ℕ
  pub iso : ℕ → String
  pub is_ordered : String → String → Bool

pub record InvoiceFollowupDetectionOpts : Type 0 where
  pub now : ℕ
  pub min_days_past_due : Option ℤ
  pub limit : Option ℕ

abbrev pub ms_day : ℕ
ms_day = 86400000

-- The difference of the days in universal time, or 0 where it is negative.
unfoldable pub calculate_days_past_due : ℕ → ℕ → ℕ
calculate_days_past_due due_date as_of = as_of / ms_day - due_date / ms_day

abbrev pub is_eligible_status : InvoiceFollowupInvoiceStatus → Bool
is_eligible_status sent = true
is_eligible_status viewed = true
is_eligible_status partial = true
is_eligible_status overdue = true
is_eligible_status _ = false

infixl 65 ◌+ℤ◌
abbrev pub ◌+ℤ◌ : ℤ → ℤ → ℤ
a +ℤ b = sub_ℕ (pos_part a + pos_part b) (neg_part a + neg_part b)

-- `addCents` of integers
abbrev pub add_cents : List ℤ → ℤ → ℤ
add_cents [] total = total
add_cents (p ∷ rest) total = add_cents rest (total +ℤ p)

unfoldable pub sum_invoice_payments : Calendar → String → List InvoiceFollowupPaymentFact → ℕ → ℤ
sum_invoice_payments cal invoice_id payments as_of =
    add_cents
      (map (λ (p : InvoiceFollowupPaymentFact). p.amount_cents)
        (keep (λ (p : InvoiceFollowupPaymentFact). leb (cal.millis p.received_at) as_of)
          (keep (λ (p : InvoiceFollowupPaymentFact). p.invoice_id == invoice_id) payments)))
      (pos 0)

-- `map.get(id)` of a map built from the list: the last entry of the id counts.
abbrev pub find_last : {A : Type 0} → (A → String) → String → List A → Option A
find_last key id [] = none
find_last key id (x ∷ xs) = elim (find_last key id xs) [
  | some y ↦ some y
  | none ↦ if key x == id then some x else none
]

abbrev pub invoice_followup_id : String → String
invoice_followup_id invoice_id = "if_" +++ invoice_id

abbrev pub candidate_of :
    Calendar
    → InvoiceFollowupInvoiceFact
    → String
    → ℕ
    → ℤ
    → InvoiceFollowupClientFact
    → InvoiceFollowupProjectFact
    → ℕ
    → InvoiceFollowupCandidate
candidate_of cal inv due days so_far client project now = record {
  id = invoice_followup_id inv.id;
  invoice_id = inv.id;
  invoice_number = inv.invoice_number;
  client_id = inv.client_id;
  project_id = inv.project_id;
  remaining_cents = inv.amount_cents -ℤ so_far;
  due_date = cal.iso (cal.millis due);
  days_past_due = days;
  status = inv.status;
  amount_cents = inv.amount_cents;
  paid_cents = so_far;
  client_name = client.name;
  client_email = client.email;
  project_name = project.name;
  as_of = cal.iso now;
}

-- What the body of the loop ends in: `continue`, a candidate, or an error.
pub data Detection : Type 0 where
  skipped : Detection
  detected : InvoiceFollowupCandidate → Detection
  missing_fact : String → Detection

abbrev pub with_project :
    Calendar
    → InvoiceFollowupInvoiceFact
    → String
    → ℕ
    → ℤ
    → InvoiceFollowupClientFact
    → Option InvoiceFollowupProjectFact
    → ℕ
    → Detection
with_project cal inv due days so_far client none now =
    missing_fact ("Missing project fact " +++ inv.project_id)
with_project cal inv due days so_far client (some project) now =
    detected (candidate_of cal inv due days so_far client project now)

abbrev pub with_client :
    Calendar
    → InvoiceFollowupInvoiceFact
    → String
    → ℕ
    → ℤ
    → Option InvoiceFollowupClientFact
    → Option InvoiceFollowupProjectFact
    → ℕ
    → Detection
with_client cal inv due days so_far none project now =
    missing_fact ("Missing client fact " +++ inv.client_id)
with_client cal inv due days so_far (some client) project now =
    with_project cal inv due days so_far client project now

abbrev pub detect_due :
    Calendar
    → InvoiceFollowupFacts
    → InvoiceFollowupDetectionOpts
    → InvoiceFollowupInvoiceFact
    → Option String
    → Detection
detect_due cal facts opts inv none = skipped
detect_due cal facts opts inv (some due) =
    let days = calculate_days_past_due (cal.millis due) opts.now in
    let so_far = sum_invoice_payments cal inv.id (or_else facts.payments []) opts.now in
    let client = find_last (λ (c : InvoiceFollowupClientFact). c.id) inv.client_id facts.clients in
    let project =
      find_last (λ (p : InvoiceFollowupProjectFact). p.id) inv.project_id facts.projects in
    if not (is_nonempty due)
    then skipped
    else if ltb_ℤ (pos days) (or_else opts.min_days_past_due (pos 1))
    then skipped
    else if leb_ℤ (inv.amount_cents -ℤ so_far) (pos 0)
    then skipped
    else with_client cal inv due days so_far client project opts.now

unfoldable pub detect_one :
    Calendar
    → InvoiceFollowupFacts
    → InvoiceFollowupDetectionOpts
    → InvoiceFollowupInvoiceFact
    → Detection
detect_one cal facts opts inv =
    if not (is_eligible_status inv.status)
    then skipped
    else detect_due cal facts opts inv inv.due_date

-- The loop over the invoices; `none` is the error of the first one that has one.
abbrev pub collect_one :
    Detection → Option (List InvoiceFollowupCandidate) → Option (List InvoiceFollowupCandidate)
collect_one skipped rest = rest
collect_one (missing_fact message) rest = none
collect_one (detected c) none = none
collect_one (detected c) (some cs) = some (c ∷ cs)

unfoldable pub detect_each :
    Calendar
    → InvoiceFollowupFacts
    → InvoiceFollowupDetectionOpts
    → List InvoiceFollowupInvoiceFact
    → Option (List InvoiceFollowupCandidate)
detect_each cal facts opts [] = some []
detect_each cal facts opts (inv ∷ rest) =
    collect_one (detect_one cal facts opts inv) (detect_each cal facts opts rest)

-- The order of the candidates: by due date, then by invoice.
abbrev pub comes_first : Calendar → InvoiceFollowupCandidate → InvoiceFollowupCandidate → Bool
comes_first cal a b =
    if not (a.due_date == b.due_date)
    then is_before (codes a.due_date) (codes b.due_date)
    else cal.is_ordered a.invoice_id b.invoice_id

abbrev pub take : {A : Type 0} → ℕ → List A → List A
take zero xs = []
take (suc n) [] = []
take (suc n) (x ∷ xs) = x ∷ take n xs

-- `opts.limit ? candidates.slice(0, opts.limit) : candidates`
abbrev pub limit_candidates : {A : Type 0} → Option ℕ → List A → List A
limit_candidates none xs = xs
limit_candidates (some zero) xs = xs
limit_candidates (some (suc n)) xs = take (suc n) xs

abbrev pub finish_detection :
    Calendar
    → Option ℕ
    → Option (List InvoiceFollowupCandidate)
    → Option (List InvoiceFollowupCandidate)
finish_detection cal limit none = none
finish_detection cal limit (some cs) =
    some (limit_candidates limit (sort_ordered (comes_first cal) cs))

unfoldable pub detect_invoice_followup_candidates :
    Calendar
    → InvoiceFollowupFacts
    → InvoiceFollowupDetectionOpts
    → Option (List InvoiceFollowupCandidate)
detect_invoice_followup_candidates cal facts opts =
    finish_detection cal opts.limit (detect_each cal facts opts facts.invoices)
