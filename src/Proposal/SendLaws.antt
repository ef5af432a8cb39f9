-- ===== src/Proposal/SendLaws.antt =====
-- What the send gate of src/proposal/sendGate.ts decides.
use kerf_app.Common.{
  Bool, Bool-cases, List, [], all, arith, false, inl, inr, is_empty, keep, not, refl, sym, true,
  ◌&&◌, ◌↔◌, ◌∙◌, ◌∷◌, ◌≡◌,
}
use kerf_app.Common.Int.{leb_ℤ, ltb_ℤ, pos, ℤ, ◌≤ℤ◌}
use kerf_app.Proposal.SendGate.{
  ProposalArtifact, SendGateCheck, client_pii_incomplete, evaluate_send_gate,
  evidence_source_missing, has_evidence, is_margin_kept, is_visible, is_window_set, judge_checks,
  pii_check, pii_complete, plain_check, proposal_total_unset, send_gate_total_ceiling_cents,
  send_gate_total_floor_cents, total_check,
}
use kerf_app.Proposal.SendTests.{
  IsSendable, IsVisible-iff, has_evidence_iff, is_window_set_iff, pii_complete_iff,
}

-- The six checks, with what they read replaced by its tests.
abbrev pub six : Bool → Bool → Bool → Bool → Bool → Bool → Bool → Bool → List SendGateCheck
six a unset below above e v s m =
    pii_check a
    ∷ total_check unset below above
    ∷ plain_check "evidence_source" evidence_source_missing e
    ∷ plain_check "validity_window" proposal_total_unset v
    ∷ plain_check "signature_block" client_pii_incomplete s
    ∷ plain_check "margin_within_policy" proposal_total_unset m
    ∷ []

passed_iff :
    (checks : List SendGateCheck)
    → is_empty (keep (λ (c : SendGateCheck). not c.pass) checks)
      ≡ all (λ (c : SendGateCheck). c.pass) checks
passed_iff [] = refl
passed_iff (c ∷ rest) = elim (Bool-cases c.pass) [
  | inl holds ↦ ground (arith, passed_iff rest)
  | inr fails ↦ ground arith
]

six_iff :
    (a unset below above e v s m : Bool)
    → (all (λ (c : SendGateCheck). c.pass) (six a unset below above e v s m) ≡ true) ↔ (
        (a ≡ true)
        × (unset ≡ false)
        × (below ≡ false)
        × (above ≡ false)
        × (e ≡ true)
        × (v ≡ true)
        × (s ≡ true)
        × (m ≡ true))
six_iff a unset below above e v s m = ground arith

totals_iff :
    (t b : ℤ)
    → ((leb_ℤ t (pos 0) ≡ false)
        × (ltb_ℤ t send_gate_total_floor_cents ≡ false)
        × (ltb_ℤ send_gate_total_ceiling_cents t ≡ false)
        × ((ltb_ℤ (pos 0) t && leb_ℤ b t) ≡ true))
      ↔ ((send_gate_total_floor_cents ≤ℤ t) × (t ≤ℤ send_gate_total_ceiling_cents) × (b ≤ℤ t))
totals_iff t b = (λ h. ground arith, λ h. ground arith)

margin_iff :
    (p : ProposalArtifact)
    → (is_margin_kept p ≡ true)
      ↔ ((ltb_ℤ (pos 0) p.total_cents && leb_ℤ p.subtotal_cents p.total_cents) ≡ true)
unfolding is_margin_kept
margin_iff p = (λ h. h, λ h. h)

-- All six checks pass exactly when the client's name, mail and some line of the address have a
-- visible character, the total lies between the floor and the ceiling and is not below the subtotal,
-- there is a source reference, a decision packet or a line from a scaffold, the proposal has an end
-- date and a positive number of days of validity, and the signatory is named.
pub evaluate_send_gate-passed_iff :
    (p : ProposalArtifact) → ((evaluate_send_gate p).all_passed ≡ true) ↔ IsSendable p
unfolding evaluate_send_gate judge_checks
evaluate_send_gate-passed_iff p =
    let unset = leb_ℤ p.total_cents (pos 0) in
    let below = ltb_ℤ p.total_cents send_gate_total_floor_cents in
    let above = ltb_ℤ send_gate_total_ceiling_cents p.total_cents in
    let s = is_visible p.signatory_name in
    let checks =
      six (pii_complete p) unset below above (has_evidence p) (is_window_set p) s
        (is_margin_kept p) in
    let tests =
      six_iff (pii_complete p) unset below above (has_evidence p) (is_window_set p) s
        (is_margin_kept p) in
    let totals = totals_iff p.total_cents p.subtotal_cents in
    let kept = margin_iff p in
    (
      λ h.
          let (a, u, b, o, e, v, s, m) = tests.0 (sym (passed_iff checks) ∙ h) in
          let (floor, ceiling, covered) = totals.0 (u, b, o, kept.0 m) in
          record {
            client = (pii_complete_iff p).0 a;
            floor = floor;
            ceiling = ceiling;
            sourced = (has_evidence_iff p).0 e;
            window = (is_window_set_iff p).0 v;
            signatory = (IsVisible-iff p.signatory_name).0 s;
            covered = covered;
          },
      λ g.
          let (u, b, o, m) = totals.1 (g.floor, g.ceiling, g.covered) in
          passed_iff checks
          ∙ tests.1 (
            (pii_complete_iff p).1 g.client,
            u,
            b,
            o,
            (has_evidence_iff p).1 g.sourced,
            (is_window_set_iff p).1 g.window,
            (IsVisible-iff p.signatory_name).1 g.signatory,
            kept.1 m,
          ),
    )
