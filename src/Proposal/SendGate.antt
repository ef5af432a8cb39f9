-- ===== src/Proposal/SendGate.antt =====
-- src/proposal/sendGate.ts: the six checks on a proposal. Of the artifact of src/proposal/types.ts
-- the fields are kept that the checks read.
use kerf_app.Common.{
  Bool, List, Option, String, [], any, false, if◌then◌else◌, is_empty, is_some, keep, none, not,
  or_else, some, true, ◌&&◌, ◌||◌, ◌∷◌,
}
use kerf_app.Common.Int.{leb_ℤ, ltb_ℤ, pos, ℤ}
use kerf_app.Common.Text.{any_visible, codes}

pub record ProposalClient : Type 0 where
  pub name : String
  pub contact_email : Option String
  pub address_lines : List String

pub record ProposalLine : Type 0 where
  pub scaffold_provenance : Option String

pub record ProposalSection : Type 0 where
  pub lines : List ProposalLine

pub record CsiDivision : Type 0 where
  pub sections : List ProposalSection

pub record ProposalArtifact : Type 0 where
  pub decision_packet_id : Option String
  pub client : ProposalClient
  pub divisions : List CsiDivision
  pub subtotal_cents : ℤ
  pub total_cents : ℤ
  pub validity_days : ℤ
  pub valid_until_date : Option String
  pub source_refs : List String
  pub signatory_name : String

pub data SendGateReason : Type 0 where
  client_pii_complete client_pii_incomplete proposal_total_unset : SendGateReason
  proposal_total_below_floor proposal_total_above_ceiling : SendGateReason
  evidence_source_missing operator_override_pending gate_pass : SendGateReason

pub record SendGateCheck : Type 0 where
  pub name : String
  pub pass : Bool
  pub reason : Option SendGateReason

pub record SendGateEvaluation : Type 0 where
  pub checks : List SendGateCheck
  pub all_passed : Bool
  pub primary_reason : SendGateReason
  pub override_eligible : Bool
  pub recoverable : Bool

abbrev pub send_gate_total_floor_cents : ℤ
send_gate_total_floor_cents = pos 50000

abbrev pub send_gate_total_ceiling_cents : ℤ
send_gate_total_ceiling_cents = pos 50000000

abbrev pub is_visible : String → Bool
is_visible s = any_visible (codes s)

abbrev pub is_visible_given : Option String → Bool
is_visible_given none = false
is_visible_given (some s) = is_visible s

unfoldable pub pii_complete : ProposalArtifact → Bool
pii_complete p =
    is_visible p.client.name
    && is_visible_given p.client.contact_email
    && any is_visible p.client.address_lines

abbrev pub pii_check : Bool → SendGateCheck
pii_check complete = record {
  name = "client_pii";
  pass = complete;
  reason = some (if complete then client_pii_complete else client_pii_incomplete);
}

-- `clientPiiComplete`
abbrev pub client_pii_check : ProposalArtifact → SendGateCheck
client_pii_check p = pii_check (pii_complete p)

abbrev pub total_failed : SendGateReason → SendGateCheck
total_failed reason = record { name = "proposal_total"; pass = false; reason = some reason }

-- The three tests of the total, then what passes them.
abbrev pub total_check : Bool → Bool → Bool → SendGateCheck
total_check unset below above =
    if unset
    then total_failed proposal_total_unset
    else if below
    then total_failed proposal_total_below_floor
    else if above
    then total_failed proposal_total_above_ceiling
    else record { name = "proposal_total"; pass = true; reason = none }

abbrev pub proposal_total_check : ProposalArtifact → SendGateCheck
proposal_total_check p =
    total_check (leb_ℤ p.total_cents (pos 0)) (ltb_ℤ p.total_cents send_gate_total_floor_cents)
      (ltb_ℤ send_gate_total_ceiling_cents p.total_cents)

-- A check with no reason where it passes.
abbrev pub plain_check : String → SendGateReason → Bool → SendGateCheck
plain_check name reason pass = record {
  name = name;
  pass = pass;
  reason = if pass then none else some reason;
}

unfoldable pub has_evidence : ProposalArtifact → Bool
has_evidence p =
    not (is_empty p.source_refs)
    || is_some p.decision_packet_id
    || any
        (λ (d : CsiDivision).
          any
            (λ (s : ProposalSection).
              any (λ (l : ProposalLine). is_some l.scaffold_provenance) s.lines)
            d.sections)
        p.divisions

abbrev pub evidence_source_check : ProposalArtifact → SendGateCheck
evidence_source_check p = plain_check "evidence_source" evidence_source_missing (has_evidence p)

unfoldable pub is_window_set : ProposalArtifact → Bool
is_window_set p = is_visible_given p.valid_until_date && ltb_ℤ (pos 0) p.validity_days

abbrev pub validity_window_check : ProposalArtifact → SendGateCheck
validity_window_check p = plain_check "validity_window" proposal_total_unset (is_window_set p)

abbrev pub signature_block_check : ProposalArtifact → SendGateCheck
signature_block_check p =
    plain_check "signature_block" client_pii_incomplete (is_visible p.signatory_name)

unfoldable pub is_margin_kept : ProposalArtifact → Bool
is_margin_kept p = ltb_ℤ (pos 0) p.total_cents && leb_ℤ p.subtotal_cents p.total_cents

abbrev pub margin_policy_check : ProposalArtifact → SendGateCheck
margin_policy_check p = plain_check "margin_within_policy" proposal_total_unset (is_margin_kept p)

-- `c.reason !== null && OVERRIDE_ELIGIBLE.has(c.reason)`
abbrev pub is_override_eligible : Option SendGateReason → Bool
is_override_eligible (some proposal_total_below_floor) = true
is_override_eligible (some proposal_total_above_ceiling) = true
is_override_eligible (some evidence_source_missing) = true
is_override_eligible _ = false

-- `c.reason !== null && RECOVERABLE.has(c.reason)`
abbrev pub is_recoverable : Option SendGateReason → Bool
is_recoverable (some client_pii_incomplete) = true
is_recoverable (some proposal_total_unset) = true
is_recoverable _ = false

-- `failed[0]?.reason ?? 'operator_override_pending'`
abbrev pub first_reason : List SendGateCheck → SendGateReason
first_reason [] = operator_override_pending
first_reason (c ∷ rest) = or_else c.reason operator_override_pending

unfoldable pub judge_checks : List SendGateCheck → SendGateEvaluation
judge_checks checks =
    let failed = keep (λ (c : SendGateCheck). not c.pass) checks in
    record {
      checks = checks;
      all_passed = is_empty failed;
      primary_reason = if is_empty failed then gate_pass else first_reason failed;
      override_eligible = any (λ (c : SendGateCheck). is_override_eligible c.reason) failed;
      recoverable = any (λ (c : SendGateCheck). is_recoverable c.reason) failed;
    }

unfoldable pub evaluate_send_gate : ProposalArtifact → SendGateEvaluation
unfolding judge_checks
evaluate_send_gate p = judge_checks (
    client_pii_check p
    ∷ proposal_total_check p
    ∷ evidence_source_check p
    ∷ validity_window_check p
    ∷ signature_block_check p
    ∷ margin_policy_check p
    ∷ [])
