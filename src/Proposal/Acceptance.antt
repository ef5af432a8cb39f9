-- ===== src/Proposal/Acceptance.antt =====
-- src/proposal/validation.ts: what an accepted proposal must have beyond the other checks, and
-- validateProposal, which joins all of them; then the sums with which a draft is filled.
use kerf_app.Common.{
  Bool, List, String, [], find, if◌then◌else◌, includes, is_empty, leb, length, ltb, not, number_eq,
  or_else, text_eq, ℕ, ◌&&◌, ◌++◌, ◌+◌, ◌==◌, ◌>?◌, ◌||◌, ◌∷◌,
}
use kerf_app.Common.Int.{pos}
use kerf_app.Common.Text.{decimal, ◌+++◌}
use kerf_app.Common.Json.{Value, array, is_null, is_object, member}
use kerf_app.Checks.Guards.{
  ValidationResult, check_given, integer_cents, invalid, is_array, is_word, require, sum_cents,
  valid,
}
use kerf_app.Proposal.Lines.{Numerics}
use kerf_app.Proposal.Validation.{
  audit_errors, ca_downpayment_cap_cents, division_errors, identity_errors, is_milestone,
  money_errors, party_errors, schedule_errors, status_errors, subtotal_sum_errors, terms_errors,
  total_errors, valid_statuses,
}

-- The elements of an array under a key of an object; none where there is no array.
abbrev pub elements : Value → String → List Value
elements v key = if is_object v then or_else (array (member v key)) [] else []

unfoldable pub count_lines : List Value → ℕ
count_lines [] = 0
count_lines (section ∷ rest) = length (elements section "lines") + count_lines rest

unfoldable pub count_division_lines : List Value → ℕ
count_division_lines [] = 0
count_division_lines (division ∷ rest) =
    count_lines (elements division "sections") + count_division_lines rest

abbrev pub cap_errors : ℕ → ℕ → List String
cap_errors total amount = require (leb amount (ca_downpayment_cap_cents (pos total))) (
    "CA §7159 violation: down_payment.amount_cents ("
    +++ decimal amount
    +++ ") exceeds the lesser of $1,000 or 10% of total = "
    +++ decimal (ca_downpayment_cap_cents (pos total))
    +++ " cents. Adjust the down payment before approval.")

abbrev pub downpayment_errors : ℕ → List Value → List String
downpayment_errors total schedule =
    check_given
      (find (is_milestone "down_payment") schedule >? λ m. integer_cents (member m "amount_cents"))
      (cap_errors total)

abbrev pub payment_sum_errors : ℕ → List Value → List String
payment_sum_errors total schedule = check_given (sum_cents "amount_cents" schedule) (λ sum.
    require (sum == total) (
      "payment_schedule sum ("
      +++ decimal sum
      +++ ") must equal total_cents ("
      +++ decimal total
      +++ ") on accepted proposals"))

abbrev pub payment_errors : Value → Value → List String
payment_errors schedule total = check_given (array schedule) (λ milestones.
    check_given (integer_cents total)
      (λ n. payment_sum_errors n milestones ++ downpayment_errors n milestones))

unfoldable pub acceptance_errors : Value → List String
acceptance_errors r =
    require (ltb 0 (count_division_lines (elements r "divisions")))
      "accepted proposals must contain at least one line item"
    ++ (payment_errors (member r "payment_schedule") (member r "total_cents")
        ++ require (not (is_null (member r "locked_at")) && not (is_null (member r "locked_by")))
            "accepted proposals must have locked_at and locked_by set")

-- The status counts where it is one of the set.
abbrev pub has_status : Value → String → Bool
has_status r word = is_word (member r "status") word && includes valid_statuses word

unfoldable pub proposal_errors : Numerics → Value → List String
proposal_errors js r =
    identity_errors r
    ++ (status_errors r
        ++ (party_errors r
            ++ (division_errors js r (has_status r "accepted")
                ++ (money_errors r
                    ++ (subtotal_sum_errors r
                        ++ (total_errors r
                            ++ (terms_errors r
                                ++ (schedule_errors r
                                    ++ (audit_errors r
                                        ++ (if has_status r "accepted"
                                            then acceptance_errors r
                                            else []))))))))))

unfoldable pub validate_proposal : Numerics → Value → ValidationResult
validate_proposal js input =
    if not (is_object input) || is_array input
    then invalid ("proposal must be an object" ∷ [])
    else if is_empty (proposal_errors js input)
    then valid input
    else invalid (proposal_errors js input)
