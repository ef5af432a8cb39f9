-- ===== src/Altitude/Answers.antt =====
-- The answer of the policy gate of src/altitude/gate.ts, `safe_next_action`, in every case.
use kerf_app.Common.{
  Bool, Bool-cases, [], arith, false, if◌then◌else◌, inl, inr, is_empty, refl, subst, sym, true,
  ◌∙◌, ◌∷◌, ◌≡◌, ◌≤◌,
}
use kerf_app.Altitude.Types.{
  AltitudeLevel, AltitudePacket, SafeNextAction, block_with_remediation, l0, l1, l2, l3, l4,
}
use kerf_app.Altitude.Levels.{altitude_rank, external_send_requested}
use kerf_app.Altitude.Assignment.{assign_altitude-rank, system_rank}
use kerf_app.Altitude.BudgetValidators.{run_v18_altitude_assignment}
use kerf_app.Altitude.Derive.{
  approval_action, autonomous_action, derive_review_requirement, derive_safe_next_action,
  needs_approval,
}
use kerf_app.Altitude.Gate.{
  all_results, blocked_reasons_of, critical_failures_of, evaluate, gate_result, run_policy_gate,
}
use kerf_app.Altitude.GateTypes.{Evaluation, GateClock, PolicyGateOptions}
use kerf_app.Altitude.GateLaws.{IsCleared, blocked_reasons_of-empty, verdicts_sound}
use kerf_app.Altitude.Criticals.{
  any_failure, critical_action-first_failure, critical_failures-empty, first_failure,
}
use kerf_app.Altitude.Judgement.{IsJudged, compact_reason, evaluate-IsJudged}
use kerf_app.Altitude.Precedence.{
  Answers, IsBased, exposed, for_commit, for_frontier, for_operator, for_owner, for_summary, met,
  mistimed, none_fail, over_cap, pick, unapproved, uncompacted, unconsented, unlabelled, unmet,
  unpriced, unsignalled, unsourced,
}

module _ (e : Evaluation) where
  -- The answer where there is no critical failure.
  abbrev settle : Bool → AltitudeLevel → SafeNextAction
  settle approval final =
      if e.r17.passed
      then (if approval then approval_action final else autonomous_action final)
      else block_with_remediation

  any_failure-first :
      (x y : SafeNextAction) → any_failure e ≡ true → first_failure e x ≡ first_failure e y
  any_failure-first x y h = ground arith

  first_failure-none : (x : SafeNextAction) → any_failure e ≡ false → first_failure e x ≡ x
  first_failure-none x h = ground arith

module _ {p : AltitudePacket} {options : PolicyGateOptions} {clock : GateClock} (e : Evaluation)
    (j : IsJudged p options clock e) where
  only_compact_fails :
      any_failure e ≡ false
      → e.r17.passed ≡ false
      → blocked_reasons_of (all_results e) ≡ compact_reason ∷ []
  unfolding blocked_reasons_of
  only_compact_fails h k = ground (arith, j.evaluation.p18, j.compact)

  nothing_fails :
      any_failure e ≡ false → e.r17.passed ≡ true → blocked_reasons_of (all_results e) ≡ []
  unfolding blocked_reasons_of
  nothing_fails h k = ground (arith, j.evaluation.p18)

  -- Every critical failure comes before the settled answer.
  pub derive_safe_next_action-first :
      (approval : Bool) (final : AltitudeLevel)
      → derive_safe_next_action
          (is_empty (blocked_reasons_of (all_results e)))
          (critical_failures_of (all_results e))
          (blocked_reasons_of (all_results e))
          approval
          final
        ≡ first_failure e (settle e approval final)
  unfolding derive_safe_next_action
  derive_safe_next_action-first approval final = elim (Bool-cases (any_failure e)) [
    | inl some_failure ↦
        rw (critical_failures-empty e j.evaluation, some_failure)
          (critical_action-first_failure e j.evaluation ∙ any_failure-first e _ _ some_failure)
    | inr no_failure ↦ elim (Bool-cases e.r17.passed) [
      | inl within ↦
          rw (critical_failures-empty e j.evaluation, no_failure, nothing_fails no_failure within)
            (sym (first_failure-none e _ no_failure ∙ rw within refl))
      | inr beyond ↦
          rw
            (
              critical_failures-empty e j.evaluation,
              no_failure,
              only_compact_fails no_failure beyond,
            )
            (sym (first_failure-none e _ no_failure ∙ rw beyond refl))
    ]
  ]

module _ (p : AltitudePacket) (options : PolicyGateOptions) (clock : GateClock) where
  judged : IsJudged p options clock (evaluate p options clock)
  judged = evaluate-IsJudged p options clock

  -- The refusals, down to the last critical validator.
  refusals :
      (otherwise : SafeNextAction)
      → ((any_failure (evaluate p options clock) ≡ false) → Answers p options clock otherwise)
      → Answers p options clock (first_failure (evaluate p options clock) otherwise)
  refusals otherwise rest =
      let j = judged in
      let P = Answers p options clock in
      pick P _ _ _ (λ f4. unconsented (unmet _ j.j4 f4))
        λ f4.
          let c4 = met _ j.j4 f4 in
          pick P _ _ _ (λ f2. unapproved c4 (unmet _ j.j2 f2))
            λ f2.
              let c2 = met _ j.j2 f2 in
              pick P _ _ _ (λ f1. unpriced c4 c2 (unmet _ j.j1 f1))
                λ f1.
                  let c1 = met _ j.j1 f1 in
                  pick P _ _ _ (λ f6. exposed c4 c2 c1 (unmet _ j.j6 f6))
                    λ f6.
                      let c6 = met _ j.j6 f6 in
                      pick P _ _ _ (λ f7. unsourced c4 c2 c1 c6 (unmet _ j.j7 f7))
                        λ f7.
                          let c7 : IsBased p options clock = (c4, c2, c1, c6, met _ j.j7 f7) in
                          pick P _ _ _ (λ f8. unlabelled c7 (unmet _ j.j8 f8))
                            λ f8.
                              let c8 = met _ j.j8 f8 in
                              pick P _ _ _ (λ f9. unsignalled c7 c8 (unmet _ j.j9 f9))
                                λ f9.
                                  let c9 = met _ j.j9 f9 in
                                  pick P _ _ _
                                    (λ f17. over_cap c7 c8 c9 (λ under. cc (j.cap.1 under)))
                                    λ f17.
                                      pick P _ _ _
                                        (λ f12. mistimed c7 c8 c9 (j.cap.0 f17) (unmet _ j.j12 f12))
                                        λ f12. rest (ground arith)

  -- An external send puts the altitude at three at least, so a low one needs no approval.
  no_send_below : system_rank p ≤ 1 → external_send_requested p ≡ false
  no_send_below h = elim (Bool-cases (external_send_requested p)) [
    | inl sends ↦ absurd (ground arith)
    | inr quiet ↦ quiet
  ]

  cleared_answer :
      (final : AltitudeLevel)
      → altitude_rank final ≡ system_rank p
      → IsCleared p options clock
      → Answers p options clock (
          if needs_approval (derive_review_requirement final p)
          then approval_action final
          else autonomous_action final)
  unfolding derive_review_requirement
  cleared_answer l4 h c = for_frontier c (sym h)
  cleared_answer l3 h c = for_owner c (sym h)
  cleared_answer l2 h c = for_operator c (sym h)
  cleared_answer l1 h c = rw (no_send_below (omega arith)) (for_summary c (sym h))
  cleared_answer l0 h c = rw (no_send_below (omega arith)) (for_commit c (sym h))

  final_rank :
      altitude_rank (evaluate p options clock).assignment.system_final_altitude ≡ system_rank p
  unfolding evaluate run_v18_altitude_assignment
  final_rank = assign_altitude-rank p

  settled_answer :
      let e = evaluate p options clock in
      let final = e.assignment.system_final_altitude in
      any_failure e ≡ false
      → Answers p options clock
          (settle e (needs_approval (derive_review_requirement final p)) final)
  settled_answer fine =
      let e = evaluate p options clock in
      let P = Answers p options clock in
      pick P e.r17.passed _ _
        (λ within. cleared_answer _ final_rank (
          verdicts_sound p options clock (
            (blocked_reasons_of-empty (all_results e)).0
              (rw (nothing_fails e judged fine within)))))
        (λ beyond.
          let j = judged in
          let (f1, f2, f4, f6, f7, f8, f9, f12, f17) = none_fail _ _ _ _ _ _ _ _ _ fine in
          uncompacted (met _ j.j4 f4, met _ j.j2 f2, met _ j.j1 f1, met _ j.j6 f6, met _ j.j7 f7)
            (met _ j.j8 f8) (met _ j.j9 f9) (j.cap.0 f17) (met _ j.j12 f12)
            (λ w. cc (judged.j17.1 w)))

-- The gate's answer, for every packet: the first requirement that fails decides the refusal, in the
-- order recording consent, approval of an external send, pricing, redaction, sources, labels,
-- learning signals, token cap, clock, compact prompt. Where all are met, the system's altitude
-- decides: a commit at 0, an internal summary at 1, and from 2 on a review by an operator, the owner
-- or the frontier model.
pub run_policy_gate-Answers :
    (p : AltitudePacket) (options : PolicyGateOptions) (clock : GateClock)
    → Answers p options clock (run_policy_gate p options clock).policy_gate_result.safe_next_action
unfolding run_policy_gate gate_result
run_policy_gate-Answers p options clock =
    let e = evaluate p options clock in
    let final = e.assignment.system_final_altitude in
    subst (Answers p options clock)
      (sym (
        derive_safe_next_action-first e (judged p options clock)
          (needs_approval (derive_review_requirement final p)) final))
      (refusals p options clock _ (settled_answer p options clock))
