-- ===== src/Altitude/Judgement.antt =====
-- The verdicts of one evaluation of src/altitude/gate.ts, gathered.
use kerf_app.Common.{String, arith, false, not, some, true, ◌&&◌, ◌↔◌, ◌≡◌, ◌⊎◌}
use kerf_app.Common.Int.{ℤ}
use kerf_app.Altitude.Types.{AltitudePacket, v17}
use kerf_app.Altitude.Validators.{validator_result}
use kerf_app.Altitude.BudgetValidators.{
  TokenBudgetOptions, run_v17_token_budget_check, total_for_gate,
}
use kerf_app.Altitude.Verdicts.{
  HasConsent, HasSignalBasis, HasSources, IsApproved, IsLabelled, IsPriced, IsRedacted, IsWithin,
  IsWithinBudget, v17_passes, v1_passes, v2_passes, v4_passes, v6_passes, v7_passes, v8_passes,
}
use kerf_app.Altitude.Gate.{evaluate, evaluated_at_of, role_visibility_of, token_budget_of}
use kerf_app.Altitude.GateTypes.{Evaluation, GateClock, PolicyGateOptions}
use kerf_app.Altitude.GateLaws.{IsTimed, v12_passes_iff, v9_passes_iff}
use kerf_app.Altitude.Criticals.{IsEvaluation, evaluate-IsEvaluation, fails}

abbrev pub compact_reason : String
compact_reason = "compact_prompt_required_at_low_altitude"

abbrev pub IsUnderCap : AltitudePacket → PolicyGateOptions → Type 0
IsUnderCap p options = IsWithin (total_for_gate p) (token_budget_of options).per_action_token_cap

pub record IsJudged (p : AltitudePacket) (options : PolicyGateOptions) (clock : GateClock)
    (e : Evaluation) : Type 0 where
  pub evaluation : IsEvaluation e
  pub j1 : (e.r1.passed ≡ true) ↔ IsPriced p
  pub j2 : (e.r2.passed ≡ true) ↔ IsApproved p.external_send
  pub j4 : (e.r4.passed ≡ true) ↔ HasConsent p
  pub j6 : (e.r6.passed ≡ true) ↔ IsRedacted p (role_visibility_of options)
  pub j7 : (e.r7.passed ≡ true) ↔ HasSources p
  pub j8 : (e.r8.passed ≡ true) ↔ IsLabelled p
  pub j9 : (e.r9.passed ≡ true) ↔ HasSignalBasis p (evaluated_at_of options clock) e.drafts
  pub j12 : (e.r12.passed ≡ true) ↔ IsTimed clock
  pub j17 : (e.r17.passed ≡ true) ↔ IsWithinBudget p (token_budget_of options)
  pub cap : (fails e v17 ≡ false) ↔ IsUnderCap p options
  pub compact :
      (e.r17.passed ≡ true) ⊎ (e.r17.critical ≡ true) ⊎ (e.r17.reason ≡ some compact_reason)

cap_lem :
    (p : AltitudePacket) (options : TokenBudgetOptions) (t : ℤ)
    → let r = run_v17_token_budget_check p options t in
      ((not r.passed && r.critical) ≡ false)
      ↔ IsWithin (total_for_gate p) options.per_action_token_cap
unfolding run_v17_token_budget_check validator_result
cap_lem p options t = ground arith

compact_lem :
    (p : AltitudePacket) (options : TokenBudgetOptions) (t : ℤ)
    → let r = run_v17_token_budget_check p options t in
      (r.passed ≡ true) ⊎ (r.critical ≡ true) ⊎ (r.reason ≡ some compact_reason)
unfolding run_v17_token_budget_check validator_result
compact_lem p options t = ground arith

pub evaluate-IsJudged :
    (p : AltitudePacket) (options : PolicyGateOptions) (clock : GateClock)
    → IsJudged p options clock (evaluate p options clock)
unfolding evaluate
evaluate-IsJudged p options clock = record {
  evaluation = evaluate-IsEvaluation p options clock;
  j1 = v1_passes p _;
  j2 = v2_passes p _;
  j4 = v4_passes p _;
  j6 = v6_passes p _ _;
  j7 = v7_passes p _;
  j8 = v8_passes p _;
  j9 = v9_passes_iff p options clock;
  j12 = v12_passes_iff p options clock;
  j17 = v17_passes p _ _;
  cap = cap_lem p _ _;
  compact = compact_lem p _ _;
}
