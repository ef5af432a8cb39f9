-- ===== src/Altitude/GateLaws.antt =====
-- What the policy gate of src/altitude/gate.ts guarantees of its decision packets.
use kerf_app.Common.{All, List, [], arith, is_empty, refl, subst, sym, true, ◌↔◌, ◌∷◌, ◌≡◌}
use kerf_app.Common.Int.{pos, ℤ, ◌≤ℤ◌}
use kerf_app.Altitude.Types.{
  AltitudePacket, ValidatorId, ValidatorResult, v1, v12, v17, v18, v2, v4, v6, v7, v8, v9,
}
use kerf_app.Altitude.Validators.{validator_result}
use kerf_app.Altitude.BudgetValidators.{run_v18_altitude_assignment}
use kerf_app.Altitude.Learning.{malformed_reason, run_v9_learning_signal_creation}
use kerf_app.Altitude.AuditTrail.{
  expected_order, ids, run_v12_audit_trail_completeness, validate_w1_audit_trail,
}
use kerf_app.Altitude.AuditLaws.{IsAudited, validate_w1_audit_trail_iff}
use kerf_app.Altitude.LearningLaws.{malformed_reason_iff}
use kerf_app.Altitude.Verdicts.{
  HasConsent, HasSignalBasis, HasSources, IsApproved, IsLabelled, IsPriced, IsRedacted,
  IsWithinBudget, v17_passes, v1_passes, v2_passes, v4_passes, v6_passes, v7_passes, v8_passes,
}
use kerf_app.Altitude.Reports.{
  IsReport, v1-IsReport, v12_passes, v17-IsReport, v18-IsReport, v2-IsReport, v4-IsReport,
  v6-IsReport, v7-IsReport, v8-IsReport, v9-IsReport, v9_passes,
}
use kerf_app.Altitude.Gate.{
  all_results, blocked_reasons_of, evaluate, evaluated_at_of, gate_result, other_results,
  role_visibility_of, run_policy_gate, token_budget_of,
}
use kerf_app.Altitude.GateTypes.{Evaluation, GateClock, PolicyGateOptions}

-- No validator was timed by a clock that was set back.
abbrev pub IsTimed : GateClock → Type 0
IsTimed clock = All (λ id. pos 0 ≤ℤ clock.elapsed id) expected_order

-- A packet that the gate has no reason to block.
pub record IsCleared (p : AltitudePacket) (options : PolicyGateOptions) (clock : GateClock)
    : Type 0 where
  pub priced : IsPriced p
  pub approved : IsApproved p.external_send
  pub consented : HasConsent p
  pub redacted : IsRedacted p (role_visibility_of options)
  pub sourced : HasSources p
  pub labelled : IsLabelled p
  pub signalled : HasSignalBasis p (evaluated_at_of options clock) (evaluate p options clock).drafts
  pub budgeted : IsWithinBudget p (token_budget_of options)
  pub timed : IsTimed clock

IsAudited-report :
    (id : ValidatorId) (t : ℤ) (r : ValidatorResult)
    → IsReport id t r
    → (IsAudited r) ↔ (pos 0 ≤ℤ t)
IsAudited-report id t r h = (
  λ (a : IsAudited r). subst (λ z. pos 0 ≤ℤ z) h.timed a.timed,
  λ k. record { named = h.named; timed = subst (λ z. pos 0 ≤ℤ z) (sym h.timed) k },
)

module _ (p : AltitudePacket) (options : PolicyGateOptions) (clock : GateClock) where
  -- The reports of the nine validators that V12 reads.
  pub record Reports (e : Evaluation) : Type 0 where
    pub q1 : IsReport v1 (clock.elapsed v1) e.r1
    pub q2 : IsReport v2 (clock.elapsed v2) e.r2
    pub q4 : IsReport v4 (clock.elapsed v4) e.r4
    pub q6 : IsReport v6 (clock.elapsed v6) e.r6
    pub q7 : IsReport v7 (clock.elapsed v7) e.r7
    pub q8 : IsReport v8 (clock.elapsed v8) e.r8
    pub q9 : IsReport v9 (clock.elapsed v9) e.r9
    pub q17 : IsReport v17 (clock.elapsed v17) e.r17
    pub q18 : IsReport v18 (clock.elapsed v18) e.r18

  pub evaluate-Reports : Reports (evaluate p options clock)
  unfolding evaluate run_v9_learning_signal_creation run_v18_altitude_assignment
  evaluate-Reports = record {
    q1 = (v1-IsReport p _).0;
    q2 = (v2-IsReport p _).0;
    q4 = (v4-IsReport p _).0;
    q6 = (v6-IsReport p _ _).0;
    q7 = (v7-IsReport p _).0;
    q8 = (v8-IsReport p _).0;
    q9 = (v9-IsReport _ _).0;
    q17 = v17-IsReport p _ _;
    q18 = v18-IsReport _;
  }

  Reports-ids : (e : Evaluation) → Reports e → ids (other_results e) ≡ expected_order
  Reports-ids e q = cc (
    q.q1.identity, q.q2.identity, q.q4.identity, q.q6.identity, q.q7.identity, q.q8.identity,
    q.q9.identity, q.q17.identity, q.q18.identity,
  )

  Reports-IsTimed : (e : Evaluation) → Reports e → All IsAudited (other_results e) ↔ IsTimed clock
  Reports-IsTimed e q = ground (
    arith,
    IsAudited-report v1 (clock.elapsed v1) e.r1 q.q1,
    IsAudited-report v2 (clock.elapsed v2) e.r2 q.q2,
    IsAudited-report v4 (clock.elapsed v4) e.r4 q.q4,
    IsAudited-report v6 (clock.elapsed v6) e.r6 q.q6,
    IsAudited-report v7 (clock.elapsed v7) e.r7 q.q7,
    IsAudited-report v8 (clock.elapsed v8) e.r8 q.q8,
    IsAudited-report v9 (clock.elapsed v9) e.r9 q.q9,
    IsAudited-report v17 (clock.elapsed v17) e.r17 q.q17,
    IsAudited-report v18 (clock.elapsed v18) e.r18 q.q18,
  )

  pub v12_passes_iff : ((evaluate p options clock).r12.passed ≡ true) ↔ IsTimed clock
  unfolding evaluate run_v12_audit_trail_completeness
  v12_passes_iff =
      let e = evaluate p options clock in
      let q = evaluate-Reports in
      let (a, b) = v12_passes (validate_w1_audit_trail (other_results e)) (clock.elapsed v12) in
      let (c, d) = validate_w1_audit_trail_iff (other_results e) in
      let (f, g) = Reports-IsTimed e q in (λ h. f (c (a h)).1, λ h. b (d (Reports-ids e q, g h)))

-- Nothing is blocked exactly when every result passed.
pub blocked_reasons_of-empty :
    (rs : List ValidatorResult)
    → (is_empty (blocked_reasons_of rs) ≡ true) ↔ All (λ (r : ValidatorResult). r.passed ≡ true) rs
unfolding blocked_reasons_of
blocked_reasons_of-empty [] = ground arith
blocked_reasons_of-empty (r ∷ rs) = ground (arith, blocked_reasons_of-empty rs)

module _ (p : AltitudePacket) (options : PolicyGateOptions) (clock : GateClock) where
  pub v9_passes_iff :
      ((evaluate p options clock).r9.passed ≡ true)
      ↔ HasSignalBasis p (evaluated_at_of options clock) (evaluate p options clock).drafts
  unfolding evaluate run_v9_learning_signal_creation
  v9_passes_iff =
      let e = evaluate p options clock in
      let (a, b) = v9_passes (malformed_reason e.drafts) (clock.elapsed v9) in
      let (c, d) = malformed_reason_iff p (evaluated_at_of options clock) e.r7 e.r8 e.assignment in
      (λ h. c (a h), λ h. b (d h))

  pub verdicts_sound :
      All (λ (r : ValidatorResult). r.passed ≡ true) (all_results (evaluate p options clock))
      → IsCleared p options clock
  unfolding evaluate
  verdicts_sound (a1, (a2, (a4, (a6, (a7, (a8, (a9, (a12, (a17, rest))))))))) = record {
    priced = (v1_passes p _).0 a1;
    approved = (v2_passes p _).0 a2;
    consented = (v4_passes p _).0 a4;
    redacted = (v6_passes p _ _).0 a6;
    sourced = (v7_passes p _).0 a7;
    labelled = (v8_passes p _).0 a8;
    signalled = v9_passes_iff.0 a9;
    budgeted = (v17_passes p _ _).0 a17;
    timed = (v12_passes_iff p options clock).0 a12;
  }

  verdicts_complete :
      IsCleared p options clock
      → All (λ (r : ValidatorResult). r.passed ≡ true) (all_results (evaluate p options clock))
  unfolding evaluate run_v18_altitude_assignment validator_result
  verdicts_complete c = (
    (v1_passes p _).1 c.priced,
    (
      (v2_passes p _).1 c.approved,
      (
        (v4_passes p _).1 c.consented,
        (
          (v6_passes p _ _).1 c.redacted,
          (
            (v7_passes p _).1 c.sourced,
            (
              (v8_passes p _).1 c.labelled,
              (
                v9_passes_iff.1 c.signalled,
                (
                  (v12_passes_iff p options clock).1 c.timed,
                  ((v17_passes p _ _).1 c.budgeted, (refl, tt)),
                ),
              ),
            ),
          ),
        ),
      ),
    ),
  )

-- The gate allows a packet exactly when it is cleared: its amount is priced from a usable source
-- class, an external send is approved, a recording has its consent, no privileged field reaches a
-- restricted role, sources, evidence and claims are there and no money rests on model inference,
-- an inference is not labelled direct evidence, the learning signals are well formed, the token
-- budget holds, and no validator was timed by a clock that was set back.
pub run_policy_gate-allowed_iff :
    (p : AltitudePacket) (options : PolicyGateOptions) (clock : GateClock)
    → ((run_policy_gate p options clock).policy_gate_result.allowed ≡ true)
      ↔ IsCleared p options clock
unfolding run_policy_gate gate_result
run_policy_gate-allowed_iff p options clock =
    let (a, b) = blocked_reasons_of-empty (all_results (evaluate p options clock)) in
    (λ h. verdicts_sound p options clock (a h), λ c. b (verdicts_complete p options clock c))
