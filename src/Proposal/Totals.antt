-- ===== src/Proposal/Totals.antt =====
-- src/proposal/validation.ts: the sums with which the amounts of a draft are filled.
use kerf_app.Common.{List, String, [], or_else, some, ℕ, ◌+◌, ◌>?◌, ◌∷◌}
use kerf_app.Common.Int.{pos, ℤ}
use kerf_app.Common.Json.{Value, as_finite, member}
use kerf_app.Checks.Guards.{integer_cents}
use kerf_app.Proposal.Lines.{Numerics}
use kerf_app.Proposal.Acceptance.{elements}

-- An amount that is no whole number of cents counts nothing.
abbrev pub cents_or_zero : Value → ℕ
cents_or_zero v = or_else (integer_cents v) 0

unfoldable pub total_of : String → List Value → ℕ
total_of key [] = 0
total_of key (v ∷ rest) = cents_or_zero (member v key) + total_of key rest

-- A price that is no whole number of cents, or a quantity that is not finite, gives nothing.
unfoldable pub compute_extended_cents : Numerics → Value → Value → ℤ
compute_extended_cents js quantity unit =
    or_else (as_finite quantity >? λ q. integer_cents unit >? λ u. some (js.rounded_product q u))
      (pos 0)

unfoldable pub sum_of_lines : List Value → ℕ
unfolding total_of
sum_of_lines [] = 0
sum_of_lines (section ∷ rest) =
    total_of "extended_cents" (elements section "lines") + sum_of_lines rest

unfoldable pub compute_division_subtotal : Value → ℕ
unfolding sum_of_lines
compute_division_subtotal division = sum_of_lines (elements division "sections")

unfoldable pub compute_proposal_subtotal : List Value → ℕ
unfolding total_of
compute_proposal_subtotal divisions = total_of "subtotal_cents" divisions

abbrev pub compute_proposal_total : ℕ → ℕ → ℕ
compute_proposal_total subtotal_cents tax_cents = subtotal_cents + tax_cents

unfoldable pub compute_payment_schedule_sum : List Value → ℕ
unfolding total_of
compute_payment_schedule_sum schedule = total_of "amount_cents" schedule
