-- ===== src/Proposal/Validation.antt =====
-- src/proposal/validation.ts: the check of a whole proposal. Each group of errors stands for a part
-- of validateProposal, in its order.
use kerf_app.Common.{
  Bool, List, String, [], false, if◌then◌else◌, includes, is_some, keep, leb, length, min, not,
  number_eq, or_else, some, text_eq, true, ℕ, ◌&&◌, ◌++◌, ◌+◌, ◌/◌, ◌==◌, ◌>?◌, ◌||◌, ◌∷◌,
}
use kerf_app.Common.Int.{ltb_ℤ, negsuc, pos, ℤ}
use kerf_app.Common.Text.{decimal, ◌+++◌}
use kerf_app.Common.Json.{Value, array, as_text, int, is_null, is_object, member, num}
use kerf_app.Checks.Guards.{
  check_given, integer_cents, is_iso8601, is_nonempty_text, is_string_array, is_text, is_word,
  require, require_given, require_object, require_one_of, sum_cents, validate_each,
}
use kerf_app.Proposal.Checks.{validate_actor, validate_client}
use kerf_app.Proposal.Lines.{Numerics, validate_division}

abbrev pub ca_downpayment_dollar_cap_cents : ℕ
ca_downpayment_dollar_cap_cents = 100000

-- Of a whole number of cents. The product with 0.10 is rounded up only where a tenth is far above
-- the dollar cap.
unfoldable pub ca_downpayment_cap_cents : ℤ → ℕ
ca_downpayment_cap_cents (negsuc n) = 0
ca_downpayment_cap_cents (pos n) = min ca_downpayment_dollar_cap_cents (n / 10)

abbrev pub valid_tenant_ids : List String
valid_tenant_ids = "tenant_ggr" ∷ "tenant_valle" ∷ "tenant_hpg" ∷ []

abbrev pub valid_statuses : List String
valid_statuses = "draft" ∷ "review" ∷ "sent" ∷ "accepted" ∷ "expired" ∷ "rejected" ∷ "voided" ∷ []

abbrev pub valid_tax_treatments : List String
valid_tax_treatments = "materials_only" ∷ "full_subtotal" ∷ "none" ∷ "custom" ∷ []

abbrev pub valid_milestone_kinds : List String
valid_milestone_kinds = "down_payment" ∷ "progress_draw" ∷ "final" ∷ "retention_release" ∷ []

abbrev pub valid_source_ref_kinds : List String
valid_source_ref_kinds = "voice" ∷ "photo" ∷ "transcript" ∷ "doc" ∷ "external" ∷ []

unfoldable pub validate_milestone : Value → String → List String
validate_milestone value path = require_object value (path +++ " must be an object") (
    require (is_nonempty_text (member value "milestone_id"))
      (path +++ ".milestone_id must be a non-empty string")
    ++ (require (is_nonempty_text (member value "label"))
          (path +++ ".label must be a non-empty string")
        ++ (require (is_some (integer_cents (member value "amount_cents")))
              (path +++ ".amount_cents must be a non-negative integer (cents)")
            ++ require_one_of (member value "kind") valid_milestone_kinds
                (path +++ ".kind must be a non-empty string")
                (λ s. path +++ ".kind \"" +++ s +++ "\" is not a recognized milestone kind"))))

abbrev pub is_milestone : String → Value → Bool
is_milestone kind m = is_object m && is_word (member m "kind") kind

unfoldable pub identity_errors : Value → List String
identity_errors r =
    require (is_nonempty_text (member r "proposal_id")) "proposal_id must be a non-empty string"
    ++ (require_one_of (member r "tenant_id") valid_tenant_ids
          "tenant_id must be a non-empty string"
          (λ s. "tenant_id \"" +++ s +++ "\" is not a recognized tenant")
        ++ (require (is_nonempty_text (member r "project_id"))
              "project_id must be a non-empty string"
            ++ (require
                  (is_null (member r "decision_packet_id")
                    || is_nonempty_text (member r "decision_packet_id"))
                  "decision_packet_id must be a non-empty string or null"
                ++ require (is_nonempty_text (member r "proposal_number"))
                    "proposal_number must be a non-empty string")))

unfoldable pub status_errors : Value → List String
status_errors r =
    require_one_of (member r "status") valid_statuses "status must be a non-empty string"
      (λ s. "status \"" +++ s +++ "\" is not recognized")

unfoldable pub party_errors : Value → List String
party_errors r =
    require (is_nonempty_text (member r "cslb_license_number"))
      "cslb_license_number must be a non-empty string (CSLB §7159 requirement)"
    ++ (require (is_nonempty_text (member r "project_name"))
          "project_name must be a non-empty string"
        ++ (require (is_string_array (member r "project_address_lines"))
              "project_address_lines must be an array of strings"
            ++ (validate_client (member r "client")
                ++ require (is_text (member r "scope_of_work_narrative"))
                    "scope_of_work_narrative must be a string")))

unfoldable pub division_errors : Numerics → Value → Bool → List String
division_errors js r is_accepted =
    require_given (array (member r "divisions")) "divisions must be an array"
      (validate_each (validate_division js is_accepted) "divisions" 0)

abbrev pub require_cents : Value → String → List String
require_cents r key =
    require (is_some (integer_cents (member r key)))
      (key +++ " must be a non-negative integer (cents)")

-- `tax_treatment === 'none'` asks for no tax.
unfoldable pub untaxed_errors : Value → List String
untaxed_errors r = check_given (integer_cents (member r "tax_cents")) (λ tax.
    require (not (is_word (member r "tax_treatment") "none") || tax == 0)
      "tax_treatment \"none\" requires tax_cents === 0")

unfoldable pub money_errors : Value → List String
money_errors r =
    require_cents r "subtotal_cents"
    ++ (require_one_of (member r "tax_treatment") valid_tax_treatments
          "tax_treatment must be a non-empty string"
          (λ s. "tax_treatment \"" +++ s +++ "\" is not recognized")
        ++ (require_cents r "tax_cents" ++ (require_cents r "total_cents" ++ untaxed_errors r)))

unfoldable pub subtotal_sum_errors : Value → List String
subtotal_sum_errors r = check_given (integer_cents (member r "subtotal_cents")) (λ n.
    check_given (array (member r "divisions") >? sum_cents "subtotal_cents") (λ sum.
      require (sum == n) (
        "subtotal_cents ("
        +++ decimal n
        +++ ") must equal sum(divisions.subtotal_cents) = "
        +++ decimal sum)))

unfoldable pub total_errors : Value → List String
total_errors r = check_given (integer_cents (member r "subtotal_cents")) (λ subtotal.
    check_given (integer_cents (member r "tax_cents")) (λ tax.
      check_given (integer_cents (member r "total_cents")) (λ total.
        require (total == (subtotal + tax)) (
          "total_cents ("
          +++ decimal total
          +++ ") must equal subtotal_cents + tax_cents = "
          +++ decimal (subtotal + tax)))))

abbrev pub is_positive_integer : Value → Bool
is_positive_integer (num (int n)) = ltb_ℤ (pos 0) n
is_positive_integer _ = false

unfoldable pub terms_errors : Value → List String
terms_errors r =
    require (is_string_array (member r "allowances")) "allowances must be an array of strings"
    ++ (require (is_string_array (member r "exclusions")) "exclusions must be an array of strings"
        ++ (require (is_string_array (member r "terms")) "terms must be an array of strings"
            ++ (require (is_positive_integer (member r "validity_days"))
                  "validity_days must be a positive integer"
                ++ (require (is_iso8601 (member r "issue_date")) "issue_date must be ISO8601"
                    ++ require (is_iso8601 (member r "valid_until_date"))
                        "valid_until_date must be ISO8601"))))

abbrev pub count_milestones : String → List Value → ℕ
count_milestones kind schedule = length (keep (is_milestone kind) schedule)

abbrev pub require_at_most_one : String → List Value → List String
require_at_most_one kind schedule = require (leb (count_milestones kind schedule) 1) (
    "payment_schedule may contain at most one "
    +++ kind
    +++ " milestone (found "
    +++ decimal (count_milestones kind schedule)
    +++ ")")

unfoldable pub schedule_errors : Value → List String
schedule_errors r =
    require_given (array (member r "payment_schedule")) "payment_schedule must be an array"
      (λ schedule.
        validate_each validate_milestone "payment_schedule" 0 schedule
        ++ (require_at_most_one "down_payment" schedule ++ require_at_most_one "final" schedule))

unfoldable pub validate_source_ref : Value → String → List String
validate_source_ref ref path = require_object ref (path +++ " must be an object") (
    require
      (or_else (as_text (member ref "kind") >? λ s. some (includes valid_source_ref_kinds s)) false)
      (path +++ ".kind must be one of voice|photo|transcript|doc|external"))

unfoldable pub locked_at_errors : Value → List String
locked_at_errors r =
    require (is_null (member r "locked_at") || is_iso8601 (member r "locked_at"))
      "locked_at must be ISO8601 or null"
    ++ ((if is_null (member r "locked_by")
          then []
          else validate_actor (member r "locked_by") "locked_by")
        ++ require
            (elim (is_null (member r "locked_at")) [
              | true ↦ is_null (member r "locked_by")
              | false ↦ not (is_null (member r "locked_by"))
            ])
            "locked_at and locked_by must both be set or both be null")

unfoldable pub audit_errors : Value → List String
audit_errors r =
    require_given (array (member r "source_refs")) "source_refs must be an array"
      (validate_each validate_source_ref "source_refs" 0)
    ++ (require (is_iso8601 (member r "created_at")) "created_at must be ISO8601"
        ++ (validate_actor (member r "created_by") "created_by"
            ++ (require (is_nonempty_text (member r "signatory_name"))
                  "signatory_name must be a non-empty string"
                ++ locked_at_errors r)))
