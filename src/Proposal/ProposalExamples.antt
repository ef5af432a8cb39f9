-- ===== src/Proposal/ProposalExamples.antt =====
-- validateProposal of src/proposal/validation.ts on a concrete proposal.
use kerf_app.Common.{String, [], refl, true, ℕ, ◌*◌, ◌-◌, ◌∷◌, ◌≡◌}
use kerf_app.Common.Int.{pos}
use kerf_app.Common.Text.{decimal}
use kerf_app.Common.Json.{
  Fields, Value, arr, bool, end, field, int, item, nil, null, num, obj, text,
}
use kerf_app.Checks.Guards.{
  check_given, invalid, is_iso8601, is_string_array, require, require_given, require_object,
  require_one_of, sum_cents, valid, validate_each,
}
use kerf_app.Checks.Patterns.{eat, eat_digits, is_csi_code_text, is_iso8601_text, skip_digits}
use kerf_app.Proposal.Checks.{
  validate_actor, validate_client, validate_designer, validate_provenance,
}
use kerf_app.Proposal.Lines.{
  Numerics, integer_text, is_csi_division_code, sum_of_sections, validate_division, validate_line,
  validate_section,
}
use kerf_app.Proposal.Validation.{
  audit_errors, ca_downpayment_cap_cents, division_errors, identity_errors, locked_at_errors,
  money_errors, party_errors, schedule_errors, status_errors, subtotal_sum_errors, terms_errors,
  total_errors, untaxed_errors, validate_milestone, validate_source_ref,
}
use kerf_app.Proposal.Acceptance.{
  acceptance_errors, count_division_lines, count_lines, proposal_errors, validate_proposal,
}
use kerf_app.Proposal.MoneyLaws.{AddsUp, validate_proposal-AddsUp}
use kerf_app.Proposal.TotalLaws.{IsComputed, validate_proposal-IsComputed}
use kerf_app.Proposal.AcceptedLaws.{validate_proposal-IsAcceptable}
use kerf_app.Proposal.AcceptanceLaws.{IsAcceptable}

-- Opens the validation with all that it calls.
checks : Unit {0}
unfolding validate_proposal proposal_errors acceptance_errors identity_errors status_errors
    party_errors division_errors money_errors untaxed_errors subtotal_sum_errors total_errors
    terms_errors schedule_errors audit_errors locked_at_errors validate_source_ref
    validate_milestone validate_division validate_section validate_line validate_provenance
    validate_client validate_designer validate_actor validate_each require require_given check_given
    require_object require_one_of is_string_array is_iso8601 is_iso8601_text is_csi_division_code
    is_csi_code_text eat eat_digits skip_digits sum_cents sum_of_sections count_lines
    count_division_lines ca_downpayment_cap_cents integer_text decimal
checks = tt

-- Products of integers alone, which the sample has.
abbrev whole_numbers : Numerics
whole_numbers = record {
  rounded_product = λ q u. elim q [ int (pos n) ↦ pos (n * u) | _ ↦ pos 0 ];
  text_of = λ v. "a value";
}

abbrev cents : ℕ → Value
cents n = num (int (pos n))

abbrev one : Value → Value
one v = arr (item v nil)

abbrev owner : Value
owner = obj (field "id" (text "u_1") (field "role" (text "owner") end))

abbrev line : ℕ → ℕ → ℕ → Value
line quantity price amount = obj (
    field "line_id" (text "line_1") (
      field "description" (text "Cabinets") (
        field "quantity" (cents quantity) (
          field "uom" (text "ea") (
            field "unit_cents" (cents price) (
              field "extended_cents" (cents amount) (
                field "notes" (text "") (
                  field "is_materials_taxable" (bool true)
                    (field "scaffold_provenance" null end)))))))))

abbrev division : ℕ → Value → Value
division subtotal lines = obj (
    field "code" (text "12") (
      field "label" (text "Furnishings") (
        field "sections"
          (one
            (obj (field "section_id" (text "s_1") (field "label" null (field "lines" lines end)))))
          (field "subtotal_cents" (cents subtotal) end))))

abbrev milestone : String → ℕ → Value
milestone kind amount = obj (
    field "milestone_id" (text "m_1") (
      field "label" (text kind)
        (field "amount_cents" (cents amount) (field "kind" (text kind) end))))

abbrev client : Value
client = obj (
    field "name" (text "Lee") (
      field "address_lines" (one (text "1 Oak")) (
        field "contact_email" null
          (field "contact_phone" null (field "designer_of_record" null end)))))

abbrev noon : Value
noon = text "2026-05-15T12:00:00Z"

-- Two units at $3,000, no tax, and a schedule with a down payment.
abbrev proposal : ℕ → Value
proposal down_payment = obj (
    field "proposal_id" (text "p_1") (
      field "tenant_id" (text "tenant_ggr") (
        field "project_id" (text "project_1") (
          field "decision_packet_id" null (
            field "proposal_number" (text "GGR-2026-514") (
              field "status" (text "accepted") (
                field "cslb_license_number" (text "1234567") (
                  field "project_name" (text "Kitchen") (
                    field "project_address_lines" (one (text "1 Oak")) (
                      field "client" client (
                        field "scope_of_work_narrative" (text "") (
                          field "divisions" (one (division 600000 (one (line 2 300000 600000)))) (
                            field "subtotal_cents" (cents 600000) (
                              field "tax_treatment" (text "none") (
                                field "tax_cents" (cents 0) (
                                  field "total_cents" (cents 600000)
                                    (rest down_payment)))))))))))))))))
  where
    rest : ℕ → Fields
    rest down_payment = field "allowances" (arr nil) (
        field "exclusions" (arr nil) (
          field "terms" (arr nil) (
            field "validity_days" (cents 30) (
              field "issue_date" noon (
                field "valid_until_date" noon (
                  field "payment_schedule"
                    (arr (
                      item (milestone "down_payment" down_payment)
                        (item (milestone "final" (600000 - down_payment)) nil)))
                    (field "source_refs" (arr nil) (
                      field "created_at" noon (
                        field "created_by" owner (
                          field "signatory_name" (text "Pat")
                            (field "locked_at" noon (field "locked_by" owner end))))))))))))

proposal-valid : validate_proposal whole_numbers (proposal 60000) ≡ valid (proposal 60000)
unfolding checks
proposal-valid = refl

-- A down payment of more than a tenth of the total is refused.
proposal-invalid :
    validate_proposal whole_numbers (proposal 60001)
    ≡ invalid (
        "CA §7159 violation: down_payment.amount_cents (60001) exceeds the lesser of $1,000 or 10% of total = 60000 cents. Adjust the down payment before approval."
        ∷ [])
unfolding checks
proposal-invalid = refl

validate_proposal-AddsUp_example :
    (proposal 60000 ≡ proposal 60000) × AddsUp whole_numbers (proposal 60000)
validate_proposal-AddsUp_example =
    validate_proposal-AddsUp whole_numbers (proposal 60000) (proposal 60000) proposal-valid

validate_proposal-IsComputed_example : IsComputed whole_numbers (proposal 60000)
validate_proposal-IsComputed_example =
    validate_proposal-IsComputed whole_numbers (proposal 60000) (proposal 60000) proposal-valid

validate_proposal-IsAcceptable_example : IsAcceptable whole_numbers (proposal 60000)
validate_proposal-IsAcceptable_example =
    validate_proposal-IsAcceptable whole_numbers (proposal 60000) (proposal 60000) refl
      proposal-valid
