-- ===== src/Proposal/AcceptedLaws.antt =====
-- What an accepted proposal that passes validateProposal (src/proposal/validation.ts) has.
use kerf_app.Common.{All, subst, ◌≡◌}
use kerf_app.Common.Json.{Value, member, text}
use kerf_app.Checks.Guards.{valid}
use kerf_app.Proposal.Lines.{Numerics}
use kerf_app.Proposal.Acceptance.{validate_proposal}
use kerf_app.Checks.Errors.{if_met}
use kerf_app.Proposal.LineLaws.{DivisionAdds}
use kerf_app.Proposal.MoneyLaws.{proposal-AddsUp, proposal_parts, validate_proposal-NoErrors}
use kerf_app.Proposal.Totals.{compute_payment_schedule_sum}
use kerf_app.Proposal.TotalLaws.{total_of-SumsTo}
use kerf_app.Proposal.AcceptanceLaws.{
  IsAcceptable, acceptance_met, audit_met, count_division_lines-line, elements-IsWithin,
  first_capped, is_accepted, locked_met, payments_met, schedule_met,
}

-- An accepted proposal that is valid has a line in a section of a division, each line has a positive
-- quantity and a positive price, it is locked at a time in ISO 8601 and by an actor with an id and a
-- known role, its milestones add up to its total, which
-- is the sum that the program computes, and every down payment among them is at most $1,000 and at
-- most a tenth of the total.
pub validate_proposal-IsAcceptable :
    (js : Numerics) (input proposal : Value)
    → member input "status" ≡ text "accepted"
    → validate_proposal js input ≡ valid proposal
    → IsAcceptable js input
unfolding compute_payment_schedule_sum
validate_proposal-IsAcceptable js input proposal status h =
    let (_, clean) = validate_proposal-NoErrors js input proposal h in
    let money = proposal-AddsUp js input clean in
    let (_, _, _, _, h_schedule, h_accepted, h_audit) = proposal_parts js input clean in
    let (schedule, e, priced, one) = schedule_met input h_schedule in
    let (lines, payments, locked_at, locked_by) =
      acceptance_met input (if_met _ _ (is_accepted input status) h_accepted) in
    let (adds, cap) = payments_met input schedule money.total e money.has_total priced payments in
    record {
      divisions = money.divisions;
      has_divisions = money.has_divisions;
      divisions_add =
          subst (λ strict. All (DivisionAdds js strict) money.divisions) (is_accepted input status)
            money.divisions_add;
      schedule = schedule;
      total = money.total;
      has_schedule = e;
      has_total = money.has_total;
      schedule_adds = adds;
      schedule_computed = total_of-SumsTo "amount_cents" schedule money.total adds;
      capped = first_capped money.total schedule priced one cap;
      has_line =
          let (d, s, l, m, in_division, in_section) = count_division_lines-line _ lines in
          (d, s, l, elements-IsWithin input "divisions" d m, in_division, in_section);
      locked_at_time = (locked_met input (audit_met input h_audit) locked_at locked_by).0;
      locked_by_actor = (locked_met input (audit_met input h_audit) locked_at locked_by).1;
    }
