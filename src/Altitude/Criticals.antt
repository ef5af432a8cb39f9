-- ===== src/Altitude/Criticals.antt =====
-- Which critical failures the policy gate of src/altitude/gate.ts finds in an evaluation.
use kerf_app.Common.{
  Bool, HasEq, List, [], any, ap, arith, false, if◌then◌else◌, includes, is_empty, not, number_eq,
  refl, text_eq, true, ◌&&◌, ◌==◌, ◌||◌, ◌∙◌, ◌∷◌, ◌≡◌,
}
use kerf_app.Altitude.Types.{
  AltitudePacket, SafeNextAction, ValidatorId, ValidatorResult, block_external_send,
  block_pricing_use, block_promotion, block_recording, block_role_visibility, block_token_budget,
  block_with_remediation, flag_eq, request_human_review, role_visibility_eq, v1, v12, v17, v18, v2,
  v4, v6, v7, v8, v9, validator_id_eq,
}
use kerf_app.Altitude.Validators.{validator_result}
use kerf_app.Altitude.BudgetValidators.{run_v18_altitude_assignment}
use kerf_app.Altitude.Learning.{run_v9_learning_signal_creation}
use kerf_app.Altitude.AuditTrail.{run_v12_audit_trail_completeness}
use kerf_app.Altitude.Reports.{
  v1-IsReport, v12-IsReport, v17-IsReport, v2-IsReport, v4-IsReport, v6-IsReport, v7-IsReport,
  v8-IsReport, v9-IsReport,
}
use kerf_app.Altitude.Derive.{critical_action}
use kerf_app.Altitude.Gate.{all_results, critical_failures_of, evaluate}
use kerf_app.Altitude.GateTypes.{Evaluation, GateClock, PolicyGateOptions}

abbrev hits : ValidatorId → ValidatorResult → Bool
hits id r = (r.validator_id == id) && (not r.passed && r.critical)

includes-push {ℓ} :
    {A : Type ℓ} ⦃q : HasEq A⦄ (test : Bool) (x a : A) (xs : List A)
    → includes (if test then x ∷ xs else xs) a ≡ (((x == a) && test) || includes xs a)
includes-push true x a xs = ground arith
includes-push false x a xs = ground arith

includes-critical_failures_of :
    (id : ValidatorId) (rs : List ValidatorResult)
    → includes (critical_failures_of rs) id ≡ any (hits id) rs
unfolding critical_failures_of
includes-critical_failures_of id [] = refl
includes-critical_failures_of id (r ∷ rs) =
    includes-push _ r.validator_id id _
    ∙ ap (λ later. hits id r || later) (includes-critical_failures_of id rs)

abbrev is_critical : ValidatorResult → Bool
is_critical r = not r.passed && r.critical

empty-critical_failures_of :
    (rs : List ValidatorResult) → is_empty (critical_failures_of rs) ≡ not (any is_critical rs)
unfolding critical_failures_of
empty-critical_failures_of [] = refl
empty-critical_failures_of (r ∷ rs) = ground (arith, empty-critical_failures_of rs)

-- What an evaluation knows of its ten results.
pub record IsEvaluation (e : Evaluation) : Type 0 where
  pub i1 : e.r1.validator_id ≡ v1
  pub i2 : e.r2.validator_id ≡ v2
  pub i4 : e.r4.validator_id ≡ v4
  pub i6 : e.r6.validator_id ≡ v6
  pub i7 : e.r7.validator_id ≡ v7
  pub i8 : e.r8.validator_id ≡ v8
  pub i9 : e.r9.validator_id ≡ v9
  pub i12 : e.r12.validator_id ≡ v12
  pub i17 : e.r17.validator_id ≡ v17
  pub i18 : e.r18.validator_id ≡ v18
  pub s1 : e.r1.critical ≡ not e.r1.passed
  pub s2 : e.r2.critical ≡ not e.r2.passed
  pub s4 : e.r4.critical ≡ not e.r4.passed
  pub s6 : e.r6.critical ≡ not e.r6.passed
  pub s7 : e.r7.critical ≡ not e.r7.passed
  pub s8 : e.r8.critical ≡ not e.r8.passed
  pub s9 : e.r9.critical ≡ not e.r9.passed
  pub s12 : e.r12.critical ≡ not e.r12.passed
  pub p18 : e.r18.passed ≡ true

pub evaluate-IsEvaluation :
    (p : AltitudePacket) (options : PolicyGateOptions) (clock : GateClock)
    → IsEvaluation (evaluate p options clock)
unfolding evaluate run_v9_learning_signal_creation run_v12_audit_trail_completeness
    run_v18_altitude_assignment validator_result
evaluate-IsEvaluation p options clock = record {
  i1 = (v1-IsReport p _).0.identity;
  i2 = (v2-IsReport p _).0.identity;
  i4 = (v4-IsReport p _).0.identity;
  i6 = (v6-IsReport p _ _).0.identity;
  i7 = (v7-IsReport p _).0.identity;
  i8 = (v8-IsReport p _).0.identity;
  i9 = (v9-IsReport _ _).0.identity;
  i12 = (v12-IsReport _ _).0.identity;
  i17 = (v17-IsReport p _ _).identity;
  i18 = refl;
  s1 = (v1-IsReport p _).1.severity;
  s2 = (v2-IsReport p _).1.severity;
  s4 = (v4-IsReport p _).1.severity;
  s6 = (v6-IsReport p _ _).1.severity;
  s7 = (v7-IsReport p _).1.severity;
  s8 = (v8-IsReport p _).1.severity;
  s9 = (v9-IsReport _ _).1.severity;
  s12 = (v12-IsReport _ _).1.severity;
  p18 = refl;
}

-- Whether the result of a validator is a critical failure.
abbrev pub fails : Evaluation → ValidatorId → Bool
fails e v1 = not e.r1.passed
fails e v2 = not e.r2.passed
fails e v4 = not e.r4.passed
fails e v6 = not e.r6.passed
fails e v7 = not e.r7.passed
fails e v8 = not e.r8.passed
fails e v9 = not e.r9.passed
fails e v12 = not e.r12.passed
fails e v17 = not e.r17.passed && e.r17.critical
fails e _ = false

module _ (e : Evaluation) where
  -- The first critical failure decides, in this order of the validators.
  abbrev pub first_failure : SafeNextAction → SafeNextAction
  first_failure otherwise =
      if fails e v4
      then block_recording
      else if fails e v2
      then block_external_send
      else if fails e v1
      then block_pricing_use
      else if fails e v6
      then block_role_visibility
      else if fails e v7
      then block_promotion
      else if fails e v8
      then request_human_review
      else if fails e v9
      then request_human_review
      else if fails e v17
      then block_token_budget
      else if fails e v12
      then request_human_review
      else otherwise

  abbrev pub any_failure : Bool
  any_failure =
      fails e v1
      || fails e v2
      || fails e v4
      || fails e v6
      || fails e v7
      || fails e v8
      || fails e v9
      || fails e v12
      || fails e v17

module _ (e : Evaluation) (h : IsEvaluation e) where
  hits-fails : (id : ValidatorId) → any (hits id) (all_results e) ≡ fails e id
  hits-fails v1 = rw (h.i1, h.i2, h.i4, h.i6, h.i7, h.i8, h.i9, h.i12, h.i17, h.i18) (ground arith)
  hits-fails _ = rw (h.i1, h.i2, h.i4, h.i6, h.i7, h.i8, h.i9, h.i12, h.i17, h.i18) (ground arith)

  pub includes-fails :
      (id : ValidatorId) → includes (critical_failures_of (all_results e)) id ≡ fails e id
  includes-fails id = includes-critical_failures_of id (all_results e) ∙ hits-fails id

  pub critical_action-first_failure :
      critical_action (critical_failures_of (all_results e))
      ≡ first_failure e block_with_remediation
  unfolding critical_action
  critical_action-first_failure = rw (
    includes-fails v4,
    includes-fails v2,
    includes-fails v1,
    includes-fails v6,
    includes-fails v7,
    includes-fails v8,
    includes-fails v9,
    includes-fails v17,
    includes-fails v12,
  )

  pub critical_failures-empty :
      is_empty (critical_failures_of (all_results e)) ≡ not (any_failure e)
  critical_failures-empty = empty-critical_failures_of (all_results e) ∙ ground arith
