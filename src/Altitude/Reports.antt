-- ===== src/Altitude/Reports.antt =====
-- What every result of a validator of src/altitude/gate.ts carries, whatever the verdict.
use kerf_app.Common.{
  Bool, List, Option, String, arith, false, if◌then◌else◌, none, not, refl, some, true, ◌↔◌, ◌≡◌,
}
use kerf_app.Common.Int.{ℤ}
use kerf_app.Common.Text.{is_nonempty}
use kerf_app.Altitude.Types.{
  AltitudeConfidenceBand, AltitudePacket, AltitudeRoleVisibility, InferenceLabel,
  ValidatorFieldCorrection, ValidatorId, ValidatorResult, band_high, direct_evidence, v1, v12, v17,
  v18, v2, v4, v6, v7, v8, v9,
}
use kerf_app.Altitude.Validators.{
  pass_result, run_v1_pricing_source_class, run_v2_external_send_approval, run_v4_recording_consent,
  run_v6_role_redaction, run_v7_source_basis_required, run_v8_model_inference_labeling, v8_label,
  validator_name_of, validator_result,
}
use kerf_app.Altitude.BudgetValidators.{TokenBudgetOptions, run_v17_token_budget_check}
use kerf_app.Altitude.Learning.{v9_result}
use kerf_app.Altitude.AuditTrail.{v12_result}

-- A result of the validator `id`, timed `t`.
pub record IsReport (id : ValidatorId) (t : ℤ) (r : ValidatorResult) : Type 0 where
  pub identity : r.validator_id ≡ id
  pub named : is_nonempty r.validator_name ≡ true
  pub timed : r.duration_ms ≡ t

-- A result that is critical if it is a failure.
pub record IsStrict (r : ValidatorResult) : Type 0 where
  pub severity : r.critical ≡ not r.passed

names_nonempty : (id : ValidatorId) → is_nonempty (validator_name_of id) ≡ true
names_nonempty v1 = refl
names_nonempty _ = refl

IsReport-result :
    (id : ValidatorId) (passed critical : Bool) (reason : Option String)
    (corrected : Option ValidatorFieldCorrection) (t : ℤ)
    → IsReport id t (validator_result id passed critical reason corrected t)
unfolding validator_result
IsReport-result id passed critical reason corrected t = record {
  identity = refl;
  named = names_nonempty id;
  timed = refl;
}

IsStrict-pass :
    (id : ValidatorId) (reason : Option String) (corrected : Option ValidatorFieldCorrection)
    (t : ℤ)
    → IsStrict (validator_result id true false reason corrected t)
unfolding validator_result
IsStrict-pass id reason corrected t = record { severity = refl }

IsStrict-fail :
    (id : ValidatorId) (reason : Option String) (corrected : Option ValidatorFieldCorrection)
    (t : ℤ)
    → IsStrict (validator_result id false true reason corrected t)
unfolding validator_result
IsStrict-fail id reason corrected t = record { severity = refl }

IsReport-if :
    (id : ValidatorId) (t : ℤ) (test : Bool) (x y : ValidatorResult)
    → IsReport id t x
    → IsReport id t y
    → IsReport id t (if test then x else y)
IsReport-if id t true x y h k = h
IsReport-if id t false x y h k = k

IsStrict-if :
    (test : Bool) (x y : ValidatorResult)
    → IsStrict x
    → IsStrict y
    → IsStrict (if test then x else y)
IsStrict-if true x y h k = h
IsStrict-if false x y h k = k

ruleset report_rules = (IsReport-result, IsReport-if, IsStrict-pass, IsStrict-fail, IsStrict-if)

pub v1-IsReport :
    (p : AltitudePacket) (t : ℤ)
    → IsReport v1 t (run_v1_pricing_source_class p t) × IsStrict (run_v1_pricing_source_class p t)
unfolding run_v1_pricing_source_class
v1-IsReport p t = (search report_rules, search report_rules)

pub v2-IsReport :
    (p : AltitudePacket) (t : ℤ)
    → IsReport v2 t (run_v2_external_send_approval p t)
      × IsStrict (run_v2_external_send_approval p t)
unfolding run_v2_external_send_approval
v2-IsReport p t = (search report_rules, search report_rules)

pub v4-IsReport :
    (p : AltitudePacket) (t : ℤ)
    → IsReport v4 t (run_v4_recording_consent p t) × IsStrict (run_v4_recording_consent p t)
unfolding run_v4_recording_consent
v4-IsReport p t = (search report_rules, search report_rules)

pub v6-IsReport :
    (p : AltitudePacket) (visibility : List AltitudeRoleVisibility) (t : ℤ)
    → IsReport v6 t (run_v6_role_redaction p visibility t)
      × IsStrict (run_v6_role_redaction p visibility t)
unfolding run_v6_role_redaction
v6-IsReport p visibility t = (search report_rules, search report_rules)

pub v7-IsReport :
    (p : AltitudePacket) (t : ℤ)
    → IsReport v7 t (run_v7_source_basis_required p t) × IsStrict (run_v7_source_basis_required p t)
unfolding run_v7_source_basis_required
v7-IsReport p t = (search report_rules, search report_rules)

v8_label-IsReport :
    (l : Option InferenceLabel) (band : AltitudeConfidenceBand) (t : ℤ)
    → IsReport v8 t (v8_label l band t) × IsStrict (v8_label l band t)
unfolding v8_label
v8_label-IsReport (some direct_evidence) band t = (search report_rules, search report_rules)
v8_label-IsReport none band t = (search report_rules, search report_rules)
v8_label-IsReport (some label) band_high t = (search report_rules, search report_rules)
v8_label-IsReport (some label) band t = (search report_rules, search report_rules)

pub v8-IsReport :
    (p : AltitudePacket) (t : ℤ)
    → IsReport v8 t (run_v8_model_inference_labeling p t)
      × IsStrict (run_v8_model_inference_labeling p t)
unfolding run_v8_model_inference_labeling
v8-IsReport p t =
    let (report, strict) =
      v8_label-IsReport p.model_inference_label p.classification.confidence_band t in
    (
      IsReport-if v8 t _ _ _ (IsReport-result v8 true false none none t) report,
      IsStrict-if _ _ _ (IsStrict-pass v8 none none t) strict,
    )

pub v9-IsReport :
    (reason : Option String) (t : ℤ)
    → IsReport v9 t (v9_result reason t) × IsStrict (v9_result reason t)
v9-IsReport none t = (search report_rules, search report_rules)
v9-IsReport (some reason) t = (search report_rules, search report_rules)

pub v12-IsReport :
    (reason : Option String) (t : ℤ)
    → IsReport v12 t (v12_result reason t) × IsStrict (v12_result reason t)
v12-IsReport none t = (search report_rules, search report_rules)
v12-IsReport (some reason) t = (search report_rules, search report_rules)

pub v17-IsReport :
    (p : AltitudePacket) (options : TokenBudgetOptions) (t : ℤ)
    → IsReport v17 t (run_v17_token_budget_check p options t)
unfolding run_v17_token_budget_check
v17-IsReport p options t = search report_rules

pub v18-IsReport : (t : ℤ) → IsReport v18 t (pass_result v18 t)
v18-IsReport t = search report_rules

pub v9_passes :
    (reason : Option String) (t : ℤ) → ((v9_result reason t).passed ≡ true) ↔ (reason ≡ none)
unfolding validator_result
v9_passes none t = ground arith
v9_passes (some reason) t = ground arith

pub v12_passes :
    (reason : Option String) (t : ℤ) → ((v12_result reason t).passed ≡ true) ↔ (reason ≡ none)
unfolding validator_result
v12_passes none t = ground arith
v12_passes (some reason) t = ground arith
