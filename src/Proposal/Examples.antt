-- ===== src/Proposal/Examples.antt =====
-- The send gate of src/proposal/sendGate.ts on a concrete proposal.
use kerf_app.Common.{[], refl, some, true, ◌↔◌, ◌∷◌, ◌≡◌}
use kerf_app.Common.Int.{pos}
use kerf_app.Proposal.SendGate.{
  ProposalArtifact, evaluate_send_gate, has_evidence, is_margin_kept, is_window_set, judge_checks,
  pii_complete,
}
use kerf_app.Proposal.SendLaws.{evaluate_send_gate-passed_iff}
use kerf_app.Proposal.SendTests.{IsSendable}
use kerf_app.Proposal.SendVerdict.{IsVerdict, evaluate_send_gate-IsVerdict}

abbrev bathroom : ProposalArtifact
bathroom = record {
  decision_packet_id = some "dp_1";
  client = record {
    name = "Lee";
    contact_email = some "lee@example.org";
    address_lines = "1 Oak" ∷ [];
  };
  divisions = [];
  subtotal_cents = pos 1800000;
  total_cents = pos 2000000;
  validity_days = pos 30;
  valid_until_date = some "2026-06-01";
  source_refs = [];
  signatory_name = "Pat";
}

bathroom-passed : (evaluate_send_gate bathroom).all_passed ≡ true
unfolding evaluate_send_gate judge_checks pii_complete has_evidence is_window_set is_margin_kept
bathroom-passed = refl

evaluate_send_gate-passed_iff_example :
    ((evaluate_send_gate bathroom).all_passed ≡ true) ↔ IsSendable bathroom
evaluate_send_gate-passed_iff_example = evaluate_send_gate-passed_iff bathroom

evaluate_send_gate-IsVerdict_example : IsVerdict bathroom (evaluate_send_gate bathroom)
evaluate_send_gate-IsVerdict_example = evaluate_send_gate-IsVerdict bathroom
