-- ===== src/Altitude/Signals.antt =====
-- Which learning signals the gate of src/altitude/gate.ts drafts.
use mathlib.Core.List.{map-append}
use kerf_app.Common.{
  Bool, Bool-cases, List, Member, Option, String, [], arith, false, if◌then◌else◌, inl, inr,
  is_some, map, none, refl, some, true, ◌++◌, ◌↔◌, ◌∷◌, ◌≡◌, ◌≢◌, ◌⊎◌,
}
use kerf_app.Common.Int.{ℤ}
use kerf_app.Altitude.Types.{
  AltitudeLevel, AltitudePacket, LearningSignalDraftReason, ValidatorFieldCorrection,
  ValidatorResult, altitude_divergence, band_high, direct_evidence, model_inference_correction,
  source_basis_required, v7, v8,
}
use kerf_app.Altitude.Levels.{AltitudeAssignmentResult, assign_altitude, classify_divergence}
use kerf_app.Altitude.Validators.{
  has_model_inference_source, run_v7_source_basis_required, run_v8_model_inference_labeling,
  v8_label, validator_result,
}
use kerf_app.Altitude.BudgetValidators.{run_v18_altitude_assignment}
use kerf_app.Altitude.Learning.{
  LearningSignalDraft, build_learning_signal_drafts, correction_drafts, divergence_drafts, is_match,
  learning_signal_draft, run_v9_learning_signal_creation, source_basis_drafts,
}
use kerf_app.Altitude.Verdicts.{HasSources, v7_passes}
use kerf_app.Altitude.Gate.{evaluate, evaluated_at_of, gate_result, run_policy_gate}
use kerf_app.Altitude.GateTypes.{GateClock, PolicyGateOptions}

abbrev pub reasons_of : List LearningSignalDraft → List LearningSignalDraftReason
reasons_of drafts = map (λ (d : LearningSignalDraft). d.reason) drafts

-- What V8 corrects: a missing label, or a high confidence under a label of inference.
abbrev pub IsCorrected : AltitudePacket → Type 0
IsCorrected p =
    (has_model_inference_source p ≡ true)
    × ((p.model_inference_label ≡ none)
        ⊎ ((p.classification.confidence_band ≡ band_high)
            × (p.model_inference_label ≢ some direct_evidence)))

v8_corrects :
    (p : AltitudePacket) (t : ℤ)
    → (is_some (run_v8_model_inference_labeling p t).field_corrected ≡ true) ↔ IsCorrected p
unfolding run_v8_model_inference_labeling v8_label validator_result
v8_corrects p t = ground arith

v7_reason :
    (p : AltitudePacket) (t : ℤ)
    → let r = run_v7_source_basis_required p t in
      (r.passed ≡ true) ⊎ (r.reason ≡ some "source_basis_required")
unfolding run_v7_source_basis_required validator_result
v7_reason p t = ground arith

correction_reasons :
    (p : AltitudePacket) (at : String) (c : Option ValidatorFieldCorrection)
    → reasons_of (correction_drafts p at c)
      ≡ (if is_some c then model_inference_correction ∷ [] else [])
unfolding correction_drafts learning_signal_draft
correction_reasons p at none = refl
correction_reasons p at (some c) = refl

source_reasons :
    (p : AltitudePacket) (at : String) (r : ValidatorResult)
    → (r.passed ≡ true) ⊎ (r.reason ≡ some "source_basis_required")
    → reasons_of (source_basis_drafts p at r)
      ≡ (if r.passed then [] else source_basis_required ∷ [])
unfolding source_basis_drafts learning_signal_draft
source_reasons p at r (inl fine) = rw fine
source_reasons p at r (inr named) = elim (Bool-cases r.passed) [
  | inl fine ↦ rw fine
  | inr failed ↦ rw (failed, named)
]

divergence_reasons :
    (p : AltitudePacket) (at : String) (a : AltitudeAssignmentResult)
    → reasons_of (divergence_drafts p at a)
      ≡ (if is_match p at a.divergence_class then [] else altitude_divergence ∷ [])
unfolding divergence_drafts learning_signal_draft
divergence_reasons p at a = ground arith

three_reasons :
    (x y z : Bool)
    → let rs =
        (if x then model_inference_correction ∷ [] else [])
        ++ ((if y then [] else source_basis_required ∷ [])
            ++ (if z then [] else altitude_divergence ∷ [])) in
      (Member model_inference_correction rs ↔ (x ≡ true))
      × (Member source_basis_required rs ↔ (y ≡ false))
      × (Member altitude_divergence rs ↔ (z ≡ false))
three_reasons x y z = ground arith

build-reasons :
    (p : AltitudePacket) (at : String) (r7 r8 : ValidatorResult) (a : AltitudeAssignmentResult)
    → (r7.passed ≡ true) ⊎ (r7.reason ≡ some "source_basis_required")
    → reasons_of (build_learning_signal_drafts p at r7 r8 a) ≡ (
        (if is_some r8.field_corrected then model_inference_correction ∷ [] else [])
        ++ ((if r7.passed then [] else source_basis_required ∷ [])
            ++ (if is_match p at a.divergence_class then [] else altitude_divergence ∷ [])))
unfolding build_learning_signal_drafts
build-reasons p at r7 r8 a h = simp (
  map-append,
  correction_reasons p at r8.field_corrected,
  source_reasons p at r7 h,
  divergence_reasons p at a,
)

same_level :
    (p : AltitudePacket) (at : String) (model system : AltitudeLevel)
    → (is_match p at (classify_divergence model system) ≡ false) ↔ (model ≢ system)
unfolding classify_divergence
same_level p at model system = ground arith

iff_trans : {A B C : Type 0} → A ↔ B → B ↔ C → A ↔ C
iff_trans f g = (λ a. g.0 (f.0 a), λ c. f.1 (g.1 c))

fails_iff : {P : Type 0} (passed : Bool) → ((passed ≡ true) ↔ P) → (passed ≡ false) ↔ (¬ P)
fails_iff true q = (λ h. cc, λ n. absurd (n (q.0 refl)))
fails_iff false q = (λ _ g. cc (q.1 g), λ n. refl)

match-same :
    (p : AltitudePacket) (at : String)
    → let a = assign_altitude p in
      (is_match p at a.divergence_class ≡ false)
      ↔ (p.model_suggested_altitude ≢ a.system_final_altitude)
unfolding assign_altitude
match-same p at = same_level p at p.model_suggested_altitude _

-- The gate drafts a learning signal of a correction exactly when V8 corrected the packet's label or
-- its confidence, one of missing sources exactly when the sources are incomplete or money rests on
-- model inference, and one of divergence exactly when the model's altitude is not the system's.
pub run_policy_gate-learning_signals :
    (p : AltitudePacket) (options : PolicyGateOptions) (clock : GateClock)
    → let d = run_policy_gate p options clock in
      let rs = reasons_of d.policy_gate_result.learning_signal_drafts in
      (Member model_inference_correction rs ↔ IsCorrected p)
      × (Member source_basis_required rs ↔ (¬ HasSources p))
      × (Member altitude_divergence rs ↔ (d.model_suggested_altitude ≢ d.system_final_altitude))
unfolding run_policy_gate gate_result evaluate run_v9_learning_signal_creation
    run_v18_altitude_assignment
run_policy_gate-learning_signals p options clock =
    let r7 = run_v7_source_basis_required p (clock.elapsed v7) in
    let r8 = run_v8_model_inference_labeling p (clock.elapsed v8) in
    let at = evaluated_at_of options clock in
    let (corrects, blocks, diverges) = three_reasons _ _ _ in
    rw (build-reasons p at r7 r8 (assign_altitude p) (v7_reason p _)) (
      iff_trans corrects (v8_corrects p _),
      iff_trans blocks (fails_iff r7.passed (v7_passes p _)),
      iff_trans diverges (match-same p at),
    )
