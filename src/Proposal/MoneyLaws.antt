-- ===== src/Proposal/MoneyLaws.antt =====
-- The money of a proposal that passes validateProposal (src/proposal/validation.ts).
use kerf_app.Common.{
  All, Bool-cases, List, String, [], arith, if◌then◌else◌, inl, inr, nat_beq_iff, not, number_eq,
  some, subst, text_eq, true, ℕ, ◌+◌, ◌==◌, ◌||◌, ◌≡◌, ◌≢◌, ◌⊎◌,
}
use kerf_app.Common.Json.{Value, array, is_object, member, text}
use kerf_app.Checks.Guards.{integer_cents, is_word, sum_cents, valid}
use kerf_app.Proposal.Lines.{Numerics, validate_division}
use kerf_app.Proposal.Validation.{
  audit_errors, division_errors, identity_errors, money_errors, party_errors, require_cents,
  schedule_errors, status_errors, subtotal_sum_errors, terms_errors, total_errors, untaxed_errors,
}
use kerf_app.Proposal.Acceptance.{acceptance_errors, has_status, proposal_errors, validate_proposal}
use kerf_app.Checks.Errors.{
  >?-some, HasCents, NoErrors, SumsTo, both_met, check_met, given_met, is_some_met, is_word-ne,
  map-All, require_met, sum_cents-given, validate_each-All,
}
use kerf_app.Proposal.LineLaws.{DivisionAdds, validate_division-DivisionAdds}

-- The total is the subtotal and the tax, the subtotal is the sum over the divisions, and each
-- division adds up, strictly in an accepted proposal.
pub record AddsUp (js : Numerics) (proposal : Value) : Type 0 where
  pub divisions : List Value
  pub subtotal : ℕ
  pub tax : ℕ
  pub total : ℕ
  pub has_divisions : array (member proposal "divisions") ≡ some divisions
  pub has_subtotal : integer_cents (member proposal "subtotal_cents") ≡ some subtotal
  pub has_tax : integer_cents (member proposal "tax_cents") ≡ some tax
  pub has_total : integer_cents (member proposal "total_cents") ≡ some total
  pub total_adds : total ≡ subtotal + tax
  pub untaxed : (member proposal "tax_treatment" ≢ text "none") ⊎ (tax ≡ 0)
  pub subtotal_adds : SumsTo "subtotal_cents" divisions subtotal
  pub divisions_add : All (DivisionAdds js (has_status proposal "accepted")) divisions

-- A proposal is returned as it was given, and only without errors.
pub validate_proposal-NoErrors :
    (js : Numerics) (input proposal : Value)
    → validate_proposal js input ≡ valid proposal
    → (proposal ≡ input) × NoErrors (proposal_errors js input)
unfolding validate_proposal
validate_proposal-NoErrors js input proposal h = (ground arith, record { none_left = ground arith })

-- The errors by groups: those of the divisions, of the money, of the schedule, of an acceptance and of
-- the audit.
pub proposal_parts :
    (js : Numerics) (r : Value)
    → NoErrors (proposal_errors js r)
    → NoErrors (division_errors js r (has_status r "accepted"))
      × NoErrors (money_errors r)
      × NoErrors (subtotal_sum_errors r)
      × NoErrors (total_errors r)
      × NoErrors (schedule_errors r)
      × NoErrors (if has_status r "accepted" then acceptance_errors r else [])
      × NoErrors (audit_errors r)
unfolding proposal_errors
proposal_parts js r h =
    let (_, h1) = both_met {xs = identity_errors r} h in
    let (_, h2) = both_met {xs = status_errors r} h1 in
    let (_, h3) = both_met {xs = party_errors r} h2 in
    let (divisions, h4) = both_met h3 in
    let (money, h5) = both_met h4 in
    let (subtotal, h6) = both_met h5 in
    let (total, h7) = both_met h6 in
    let (_, h8) = both_met {xs = terms_errors r} h7 in
    let (schedule, h9) = both_met h8 in
    let (audit, accepted) = both_met {xs = audit_errors r} h9 in
    (divisions, money, subtotal, total, schedule, accepted, audit)

cents_met :
    (r : Value) (key : String)
    → NoErrors (require_cents r key)
    → (n : ℕ) × (integer_cents (member r key) ≡ some n)
cents_met r key h = is_some_met _ (require_met _ _ h)

untaxed_met :
    (treatment : Value) (tax : ℕ)
    → (not (is_word treatment "none") || tax == 0) ≡ true
    → (treatment ≢ text "none") ⊎ (tax ≡ 0)
untaxed_met treatment tax h = elim (Bool-cases (is_word treatment "none")) [
  | inl named ↦ inr (ground arith)
  | inr other ↦ inl (is_word-ne treatment "none" other)
]

module _ (js : Numerics) (r : Value) where
  divisions_met :
      NoErrors (division_errors js r (has_status r "accepted"))
      → (divisions : List Value) × (array (member r "divisions") ≡ some divisions)
        × All (λ d. (is_object d ≡ true) × DivisionAdds js (has_status r "accepted") d) divisions
  unfolding division_errors
  divisions_met h =
      let (divisions, e, each) = given_met _ _ _ h in
      (
        divisions,
        e,
        validate_each-All (validate_division js (has_status r "accepted"))
            (validate_division-DivisionAdds js (has_status r "accepted")) _ _ _ each,
      )

  amounts_met :
      NoErrors (money_errors r)
      → (subtotal : ℕ) × (tax : ℕ) × (total : ℕ) × (integer_cents (member r "subtotal_cents")
          ≡ some subtotal)
        × (integer_cents (member r "tax_cents") ≡ some tax)
        × (integer_cents (member r "total_cents") ≡ some total)
        × ((member r "tax_treatment" ≢ text "none") ⊎ (tax ≡ 0))
  unfolding money_errors untaxed_errors
  amounts_met h =
      let (h_subtotal, h1) = both_met h in
      let (_, h2) = both_met h1 in
      let (h_tax, h3) = both_met h2 in
      let (h_total, h_untaxed) = both_met h3 in
      let (subtotal, e_subtotal) = cents_met r "subtotal_cents" h_subtotal in
      let (tax, e_tax) = cents_met r "tax_cents" h_tax in
      let (total, e_total) = cents_met r "total_cents" h_total in
      (
        subtotal,
        tax,
        total,
        e_subtotal,
        e_tax,
        e_total,
        untaxed_met _ tax (require_met _ _ (check_met _ _ tax e_tax h_untaxed)),
      )

  subtotal_met :
      (divisions : List Value) (subtotal : ℕ)
      → array (member r "divisions") ≡ some divisions
      → integer_cents (member r "subtotal_cents") ≡ some subtotal
      → All (λ d. (is_object d ≡ true) × DivisionAdds js (has_status r "accepted") d) divisions
      → NoErrors (subtotal_sum_errors r)
      → SumsTo "subtotal_cents" divisions subtotal
  unfolding subtotal_sum_errors
  subtotal_met divisions subtotal e e_subtotal reads h =
      let priced =
        map-All {Q = HasCents "subtotal_cents"} (λ d g. (g.0, g.1.1, g.1.3)) divisions reads in
      let (sum, sums, add) = sum_cents-given "subtotal_cents" divisions priced in
      let known = >?-some (array (member r "divisions")) (sum_cents "subtotal_cents") e sums in
      let equal = require_met _ _ (check_met _ _ sum known (check_met _ _ subtotal e_subtotal h)) in
      subst (SumsTo "subtotal_cents" divisions) ((nat_beq_iff sum subtotal).0 equal) add

  total_met :
      (subtotal tax total : ℕ)
      → integer_cents (member r "subtotal_cents") ≡ some subtotal
      → integer_cents (member r "tax_cents") ≡ some tax
      → integer_cents (member r "total_cents") ≡ some total
      → NoErrors (total_errors r)
      → total ≡ subtotal + tax
  unfolding total_errors
  total_met subtotal tax total e_subtotal e_tax e_total h =
      let after_tax = check_met _ _ tax e_tax (check_met _ _ subtotal e_subtotal h) in
      let equal = require_met _ _ (check_met _ _ total e_total after_tax) in
      (nat_beq_iff total (subtotal + tax)).0 equal

  pub proposal-AddsUp : NoErrors (proposal_errors js r) → AddsUp js r
  proposal-AddsUp h =
      let (h_divisions, h_money, h_subtotal, h_total, _, _, _) = proposal_parts js r h in
      let (divisions, e, reads) = divisions_met h_divisions in
      let (subtotal, tax, total, e_subtotal, e_tax, e_total, untaxed) = amounts_met h_money in
      record {
        divisions = divisions;
        subtotal = subtotal;
        tax = tax;
        total = total;
        has_divisions = e;
        has_subtotal = e_subtotal;
        has_tax = e_tax;
        has_total = e_total;
        total_adds = total_met subtotal tax total e_subtotal e_tax e_total h_total;
        untaxed = untaxed;
        subtotal_adds = subtotal_met divisions subtotal e e_subtotal reads h_subtotal;
        divisions_add = map-All (λ d g. g.1) divisions reads;
      }

-- A proposal that is valid is the input as it was given, and its money adds up, whatever its status:
-- the total is the subtotal and the tax, there is no tax under the treatment "none", the subtotal is
-- the sum of the subtotals of the divisions, the subtotal of each division is the sum of the amounts
-- of the lines of its sections, and the amount of each line is its quantity times its price, rounded,
-- where both are positive if the status is "accepted".
pub validate_proposal-AddsUp :
    (js : Numerics) (input proposal : Value)
    → validate_proposal js input ≡ valid proposal
    → (proposal ≡ input) × AddsUp js input
validate_proposal-AddsUp js input proposal h =
    let (same, clean) = validate_proposal-NoErrors js input proposal h in
    (same, proposal-AddsUp js input clean)
