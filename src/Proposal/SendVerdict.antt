-- ===== src/Proposal/SendVerdict.antt =====
-- What the send gate of src/proposal/sendGate.ts says of a proposal that it holds back.
use kerf_app.Common.{Bool, arith, false, inl, inr, refl, true, ◌&&◌, ◌↔◌, ◌≡◌, ◌⊎◌}
use kerf_app.Common.Int.{leb_ℤ, ltb_ℤ, pos, ℤ, ◌<ℤ◌, ◌≤ℤ◌}
use kerf_app.Proposal.SendGate.{
  ProposalArtifact, SendGateEvaluation, SendGateReason, client_pii_incomplete, evaluate_send_gate,
  evidence_source_missing, gate_pass, has_evidence, is_margin_kept, is_visible, is_window_set,
  judge_checks, pii_complete, proposal_total_above_ceiling, proposal_total_below_floor,
  proposal_total_unset, send_gate_total_ceiling_cents, send_gate_total_floor_cents,
}
use kerf_app.Proposal.SendLaws.{six}
use kerf_app.Proposal.SendTests.{
  HasClient, HasEvidence, HasWindow, IsVisible, IsVisible-iff, has_evidence_iff, is_window_set_iff,
  pii_complete_iff,
}

-- The total is at least the floor and at most the ceiling.
abbrev pub IsInBounds : ProposalArtifact → Type 0
IsInBounds p =
    (send_gate_total_floor_cents ≤ℤ p.total_cents)
    × (p.total_cents ≤ℤ send_gate_total_ceiling_cents)

-- The first thing that a proposal lacks, with the reason that the gate has for it.
pub data FirstFault (p : ProposalArtifact) : SendGateReason → Type 0 where
  no_client : ¬ HasClient p → FirstFault p client_pii_incomplete
  no_total : HasClient p → p.total_cents ≤ℤ pos 0 → FirstFault p proposal_total_unset
  too_low :
      HasClient p
      → pos 0 <ℤ p.total_cents
      → p.total_cents <ℤ send_gate_total_floor_cents
      → FirstFault p proposal_total_below_floor
  too_high :
      HasClient p
      → send_gate_total_ceiling_cents <ℤ p.total_cents
      → FirstFault p proposal_total_above_ceiling
  no_evidence : HasClient p → IsInBounds p → ¬ HasEvidence p → FirstFault p evidence_source_missing
  no_window :
      HasClient p → IsInBounds p → HasEvidence p → ¬ HasWindow p → FirstFault p proposal_total_unset
  no_signatory :
      HasClient p
      → IsInBounds p
      → HasEvidence p
      → HasWindow p
      → ¬ IsVisible p.signatory_name
      → FirstFault p client_pii_incomplete
  not_covered :
      HasClient p
      → IsInBounds p
      → HasEvidence p
      → HasWindow p
      → IsVisible p.signatory_name
      → p.total_cents <ℤ p.subtotal_cents
      → FirstFault p proposal_total_unset

-- What an operator may override: a total that is set and out of its bounds, or a lack of evidence.
abbrev pub IsOverridable : ProposalArtifact → Type 0
IsOverridable p =
    ((pos 0 <ℤ p.total_cents)
      × ((p.total_cents <ℤ send_gate_total_floor_cents)
          ⊎ (send_gate_total_ceiling_cents <ℤ p.total_cents)))
    ⊎ (¬ HasEvidence p)

-- What the operator can complete.
abbrev pub IsRecoverable : ProposalArtifact → Type 0
IsRecoverable p =
    (¬ HasClient p)
    ⊎ (p.total_cents ≤ℤ pos 0)
    ⊎ (¬ HasWindow p)
    ⊎ (¬ IsVisible p.signatory_name)
    ⊎ (p.total_cents <ℤ p.subtotal_cents)

pub record IsVerdict (p : ProposalArtifact) (ev : SendGateEvaluation) : Type 0 where
  pub reason :
      ((ev.all_passed ≡ true) × (ev.primary_reason ≡ gate_pass))
      ⊎ ((ev.all_passed ≡ false) × FirstFault p ev.primary_reason)
  pub override : (ev.override_eligible ≡ true) ↔ IsOverridable p
  pub recovery : (ev.recoverable ≡ true) ↔ IsRecoverable p
  pub acts : (ev.all_passed ≡ true) ⊎ (ev.override_eligible ≡ true) ⊎ (ev.recoverable ≡ true)

unmet_iff : {A : Type 0} (a : Bool) → (a ≡ true) ↔ A → (a ≡ false) ↔ (¬ A)
unmet_iff true f = (λ h. cc, λ n. absurd (n (f.0 refl)))
unmet_iff false f = (λ h x. let no = f.1 x in cc, λ n. refl)

override_iff :
    (a u b o e v s m : Bool)
    → ((judge_checks (six a u b o e v s m)).override_eligible ≡ true)
      ↔ (((u ≡ false) × ((b ≡ true) ⊎ (o ≡ true))) ⊎ (e ≡ false))
unfolding judge_checks
override_iff a u b o e v s m = ground arith

recoverable_iff :
    (a u b o e v s m : Bool)
    → ((judge_checks (six a u b o e v s m)).recoverable ≡ true)
      ↔ ((a ≡ false) ⊎ (u ≡ true) ⊎ (v ≡ false) ⊎ (s ≡ false) ⊎ (m ≡ false))
unfolding judge_checks
recoverable_iff a u b o e v s m = ground arith

always_acts :
    (a u b o e v s m : Bool)
    → let ev = judge_checks (six a u b o e v s m) in
      (ev.all_passed ≡ true) ⊎ (ev.override_eligible ≡ true) ⊎ (ev.recoverable ≡ true)
unfolding judge_checks
always_acts a u b o e v s m = ground arith

total_tests :
    (t b : ℤ)
    → ((leb_ℤ t (pos 0) ≡ true) ↔ (t ≤ℤ pos 0))
      × ((leb_ℤ t (pos 0) ≡ false) ↔ (pos 0 <ℤ t))
      × ((ltb_ℤ t send_gate_total_floor_cents ≡ true) ↔ (t <ℤ send_gate_total_floor_cents))
      × ((ltb_ℤ t send_gate_total_floor_cents ≡ false) ↔ (send_gate_total_floor_cents ≤ℤ t))
      × ((ltb_ℤ send_gate_total_ceiling_cents t ≡ true) ↔ (send_gate_total_ceiling_cents <ℤ t))
      × ((ltb_ℤ send_gate_total_ceiling_cents t ≡ false) ↔ (t ≤ℤ send_gate_total_ceiling_cents))
total_tests t b = ground arith

margin_fails :
    (t b : ℤ) → ((ltb_ℤ (pos 0) t && leb_ℤ b t) ≡ false) → leb_ℤ t (pos 0) ≡ false → t <ℤ b
margin_fails t b h g = ground arith

margin_iff :
    (t b : ℤ)
    → ((leb_ℤ t (pos 0) ≡ true) ⊎ ((ltb_ℤ (pos 0) t && leb_ℤ b t) ≡ false))
      ↔ ((t ≤ℤ pos 0) ⊎ (t <ℤ b))
margin_iff t b = (λ h. ground arith, λ h. ground arith)

module _ (p : ProposalArtifact) where
  abbrev unset : Bool
  unset = leb_ℤ p.total_cents (pos 0)

  abbrev below : Bool
  below = ltb_ℤ p.total_cents send_gate_total_floor_cents

  abbrev above : Bool
  above = ltb_ℤ send_gate_total_ceiling_cents p.total_cents

  abbrev margin : Bool
  margin = ltb_ℤ (pos 0) p.total_cents && leb_ℤ p.subtotal_cents p.total_cents

  reason_lem :
      (a u b o e v s m : Bool)
      → pii_complete p ≡ a
      → unset ≡ u
      → below ≡ b
      → above ≡ o
      → has_evidence p ≡ e
      → is_window_set p ≡ v
      → is_visible p.signatory_name ≡ s
      → margin ≡ m
      → let ev = judge_checks (six a u b o e v s m) in
        ((ev.all_passed ≡ true) × (ev.primary_reason ≡ gate_pass))
        ⊎ ((ev.all_passed ≡ false) × FirstFault p ev.primary_reason)
  unfolding judge_checks
  reason_lem false u b o e v s m qa qu qb qo qe qv qs qm =
      inr (refl, no_client ((unmet_iff _ (pii_complete_iff p)).0 qa))
  reason_lem true true b o e v s m qa qu qb qo qe qv qs qm = inr (
    refl,
    no_total ((pii_complete_iff p).0 qa) ((total_tests p.total_cents p.subtotal_cents).0.0 qu),
  )
  reason_lem true false true o e v s m qa qu qb qo qe qv qs qm =
      let t = total_tests p.total_cents p.subtotal_cents in
      inr (refl, too_low ((pii_complete_iff p).0 qa) (t.1.0 qu) (t.2.0 qb))
  reason_lem true false false true e v s m qa qu qb qo qe qv qs qm = inr (
    refl,
    too_high ((pii_complete_iff p).0 qa) ((total_tests p.total_cents p.subtotal_cents).4.0 qo),
  )
  reason_lem true false false false e v s m qa qu qb qo qe qv qs qm =
      let t = total_tests p.total_cents p.subtotal_cents in
      after_total e v s m ((pii_complete_iff p).0 qa) (t.3.0 qb, t.5.0 qo) qe qv qs qm
    where
      after_total :
          (e v s m : Bool)
          → HasClient p
          → IsInBounds p
          → has_evidence p ≡ e
          → is_window_set p ≡ v
          → is_visible p.signatory_name ≡ s
          → margin ≡ m
          → let ev = judge_checks (six true false false false e v s m) in
            ((ev.all_passed ≡ true) × (ev.primary_reason ≡ gate_pass))
            ⊎ ((ev.all_passed ≡ false) × FirstFault p ev.primary_reason)
      after_total false v s m c i qe qv qs qm =
          inr (refl, no_evidence c i ((unmet_iff _ (has_evidence_iff p)).0 qe))
      after_total true false s m c i qe qv qs qm = inr (
        refl,
        no_window c i ((has_evidence_iff p).0 qe) ((unmet_iff _ (is_window_set_iff p)).0 qv),
      )
      after_total true true false m c i qe qv qs qm = inr (
        refl,
        no_signatory c i ((has_evidence_iff p).0 qe) ((is_window_set_iff p).0 qv)
            ((unmet_iff _ (IsVisible-iff p.signatory_name)).0 qs),
      )
      after_total true true true false c i qe qv qs qm = inr (
        refl,
        not_covered c i ((has_evidence_iff p).0 qe) ((is_window_set_iff p).0 qv)
            ((IsVisible-iff p.signatory_name).0 qs)
            (margin_fails p.total_cents p.subtotal_cents qm qu),
      )
      after_total true true true true c i qe qv qs qm = inl (refl, refl)

-- A proposal passes the gate, or the gate's reason is that of the first thing that it lacks, in the
-- order client, total, evidence, validity, signatory, total below the subtotal. It can be overridden
-- exactly when the total is positive but out of its bounds or there is no evidence, and the operator
-- can recover exactly when the client, a positive total, the validity or the signatory is missing or
-- the total is below the subtotal; whatever does not pass is one of the two.
pub evaluate_send_gate-IsVerdict : (p : ProposalArtifact) → IsVerdict p (evaluate_send_gate p)
unfolding evaluate_send_gate is_margin_kept
evaluate_send_gate-IsVerdict p =
    let t = total_tests p.total_cents p.subtotal_cents in
    let no_evidence_iff = unmet_iff _ (has_evidence_iff p) in
    let client = unmet_iff _ (pii_complete_iff p) in
    let window = unmet_iff _ (is_window_set_iff p) in
    let signed = unmet_iff _ (IsVisible-iff p.signatory_name) in
    let tests =
      override_iff (pii_complete p) (unset p) (below p) (above p) (has_evidence p) (is_window_set p)
        (is_visible p.signatory_name) (margin p) in
    let recover =
      recoverable_iff (pii_complete p) (unset p) (below p) (above p) (has_evidence p)
        (is_window_set p) (is_visible p.signatory_name) (margin p) in
    let missing = margin_iff p.total_cents p.subtotal_cents in
    record {
      reason = reason_lem p _ _ _ _ _ _ _ _ refl refl refl refl refl refl refl refl;
      override = (
        λ h. elim (tests.0 h) [
          | inl (set, off) ↦
              inl (t.1.0 set, elim off [ inl b ↦ inl (t.2.0 b) | inr o ↦ inr (t.4.0 o) ])
          | inr e ↦ inr (no_evidence_iff.0 e)
        ],
        λ g. tests.1 (elim g [
          | inl (set, off) ↦
              inl (t.1.1 set, elim off [ inl b ↦ inl (t.2.1 b) | inr o ↦ inr (t.4.1 o) ])
          | inr e ↦ inr (no_evidence_iff.1 e)
        ]),
      );
      recovery = (
        λ h. elim (recover.0 h) [
          | inl a ↦ inl (client.0 a)
          | inr (inl u) ↦ inr (inl (t.0.0 u))
          | inr (inr (inl v)) ↦ inr (inr (inl (window.0 v)))
          | inr (inr (inr (inl s))) ↦ inr (inr (inr (inl (signed.0 s))))
          | inr (inr (inr (inr m))) ↦ elim (missing.0 (inr m)) [
            | inl low ↦ inr (inl low)
            | inr short ↦ inr (inr (inr (inr short)))
          ]
        ],
        λ g. recover.1 (elim g [
          | inl a ↦ inl (client.1 a)
          | inr (inl u) ↦ inr (inl (t.0.1 u))
          | inr (inr (inl v)) ↦ inr (inr (inl (window.1 v)))
          | inr (inr (inr (inl s))) ↦ inr (inr (inr (inl (signed.1 s))))
          | inr (inr (inr (inr short))) ↦ elim (missing.1 (inr short)) [
            | inl u ↦ inr (inl u)
            | inr m ↦ inr (inr (inr (inr m)))
          ]
        ]),
      );
      acts =
          always_acts (pii_complete p) (unset p) (below p) (above p) (has_evidence p)
            (is_window_set p) (is_visible p.signatory_name) (margin p);
    }
