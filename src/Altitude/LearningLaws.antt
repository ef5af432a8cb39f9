-- ===== src/Altitude/LearningLaws.antt =====
-- What V9 (src/altitude/gate.ts) drafts and accepts.
use kerf_app.Common.{
  All, Bool-cases, List, Option, Option-cases, String, [], arith, inl, inr, none, not, refl, some,
  true, ◌&&◌, ◌++◌, ◌↔◌, ◌∷◌, ◌≡◌, ◌⊎◌,
}
use kerf_app.Common.Text.{is_nonempty, nonempty-append_left, nonempty-append_right, ◌+++◌}
use kerf_app.Altitude.Types.{
  AltitudePacket, LearningSignalDraftReason, ValidatorFieldCorrection, ValidatorId, ValidatorResult,
  altitude_divergence, model_inference_correction, source_basis_required, v18, v7, v8,
}
use kerf_app.Altitude.Levels.{AltitudeAssignmentResult}
use kerf_app.Altitude.Learning.{
  LearningSignalDraft, Metadata, build_learning_signal_drafts, correction_drafts, divergence_drafts,
  is_match, learning_signal_draft, malformed_reason, names_source_basis, source_basis_drafts,
  validate_learning_signal_draft,
}
use kerf_app.Altitude.Verdicts.{HasSignalBasis}

-- A draft that names its packet, its model and its date, and says something.
pub record IsDraftOf (p : AltitudePacket) (evaluated_at : String) (d : LearningSignalDraft)
    : Type 0 where
  pub of_packet : d.packet_id ≡ p.packet_id
  pub of_model : d.source_model ≡ p.source_model
  pub of_date : d.created_at ≡ evaluated_at
  pub identified : is_nonempty d.draft_id ≡ true
  pub summarised : is_nonempty d.summary ≡ true

draft_id_nonempty :
    (packet_id a b c : String) → is_nonempty (packet_id +++ ":learning:" +++ a +++ b +++ c) ≡ true
draft_id_nonempty packet_id a b c = nonempty-append_left _ c (
    nonempty-append_left _ b
      (nonempty-append_left _ a (nonempty-append_right packet_id ":learning:" refl)))

learning_signal_draft-IsDraftOf :
    (p : AltitudePacket) (evaluated_at : String) (source : ValidatorId)
    (reason : LearningSignalDraftReason) (summary : String) (metadata : List (String × Metadata))
    → is_nonempty summary ≡ true
    → IsDraftOf p evaluated_at (learning_signal_draft p evaluated_at source reason summary metadata)
unfolding learning_signal_draft
learning_signal_draft-IsDraftOf p evaluated_at source reason summary metadata h = record {
  of_packet = refl;
  of_model = refl;
  of_date = refl;
  identified = draft_id_nonempty p.packet_id _ _ _;
  summarised = h;
}

All-append {ℓ κ} :
    {A : Type ℓ} (P : A → Type κ) (xs ys : List A) → All P xs → All P ys → All P (xs ++ ys)
All-append P [] ys h k = k
All-append P (x ∷ xs) ys (q, h) k = (q, All-append P xs ys h k)

summary_nonempty :
    (a b c d : String) → is_nonempty a ≡ true → is_nonempty (a +++ b +++ c +++ d) ≡ true
summary_nonempty a b c d h =
    nonempty-append_left _ d (nonempty-append_left _ c (nonempty-append_left _ b h))

module _ (p : AltitudePacket) (evaluated_at : String) where
  correction_drafts-IsDraftOf :
      (c : Option ValidatorFieldCorrection)
      → All (IsDraftOf p evaluated_at) (correction_drafts p evaluated_at c)
  unfolding correction_drafts
  correction_drafts-IsDraftOf none = tt
  correction_drafts-IsDraftOf (some c) = (
    learning_signal_draft-IsDraftOf p evaluated_at v8 model_inference_correction _ _
        (nonempty-append_left _ _ (summary_nonempty _ _ _ _ refl)),
    tt,
  )

  source_basis_drafts-IsDraftOf :
      (v : ValidatorResult) → All (IsDraftOf p evaluated_at) (source_basis_drafts p evaluated_at v)
  unfolding source_basis_drafts
  source_basis_drafts-IsDraftOf v =
      elim (Bool-cases (not v.passed && names_source_basis p evaluated_at v.reason)) [
        | inl e ↦ rw e (
          learning_signal_draft-IsDraftOf p evaluated_at v7 source_basis_required _ _
              (nonempty-append_left _ _ (nonempty-append_left _ _ refl)),
          tt,
        )
        | inr e ↦ rw e tt
      ]

  divergence_drafts-IsDraftOf :
      (a : AltitudeAssignmentResult)
      → All (IsDraftOf p evaluated_at) (divergence_drafts p evaluated_at a)
  unfolding divergence_drafts
  divergence_drafts-IsDraftOf a = elim (Bool-cases (is_match p evaluated_at a.divergence_class)) [
    | inl e ↦ rw e tt
    | inr e ↦ rw e (
      learning_signal_draft-IsDraftOf p evaluated_at v18 altitude_divergence _ _
          (nonempty-append_left _ _ (summary_nonempty _ _ _ _ refl)),
      tt,
    )
  ]

  pub build_learning_signal_drafts-IsDraftOf :
      (r7 r8 : ValidatorResult) (a : AltitudeAssignmentResult)
      → All (IsDraftOf p evaluated_at) (build_learning_signal_drafts p evaluated_at r7 r8 a)
  unfolding build_learning_signal_drafts
  build_learning_signal_drafts-IsDraftOf r7 r8 a =
      All-append _ _ _ (correction_drafts-IsDraftOf r8.field_corrected)
        (All-append _ _ _ (source_basis_drafts-IsDraftOf r7) (divergence_drafts-IsDraftOf a))

  abbrev HasBasis : Type 0
  HasBasis =
      (is_nonempty p.packet_id ≡ true)
      × (is_nonempty evaluated_at ≡ true)
      × (is_nonempty p.source_model ≡ true)

  validate-eq-none :
      (d : LearningSignalDraft)
      → IsDraftOf p evaluated_at d
      → (validate_learning_signal_draft d ≡ none) ↔ HasBasis
  unfolding validate_learning_signal_draft
  validate-eq-none d h = ground arith

  basis-accepts :
      (ds : List LearningSignalDraft)
      → All (IsDraftOf p evaluated_at) ds
      → HasBasis
      → malformed_reason ds ≡ none
  unfolding malformed_reason
  basis-accepts [] h b = refl
  basis-accepts (d ∷ ds) (q, h) b =
      rw ((validate-eq-none d q).1 b, malformed_reason) (basis-accepts ds h b)

  accepted-HasBasis :
      (ds : List LearningSignalDraft)
      → All (IsDraftOf p evaluated_at) ds
      → malformed_reason ds ≡ none
      → (ds ≡ []) ⊎ HasBasis
  unfolding malformed_reason
  accepted-HasBasis [] h e = inl refl
  accepted-HasBasis (d ∷ ds) (q, h) e = elim (Option-cases (validate_learning_signal_draft d)) [
    | inl fine ↦ inr ((validate-eq-none d q).0 fine)
    | inr (reason, bad) ↦ ground arith
  ]

  pub malformed_reason_iff :
      (r7 r8 : ValidatorResult) (a : AltitudeAssignmentResult)
      → let ds = build_learning_signal_drafts p evaluated_at r7 r8 a in
        (malformed_reason ds ≡ none) ↔ HasSignalBasis p evaluated_at ds
  unfolding malformed_reason
  malformed_reason_iff r7 r8 a =
      let h = build_learning_signal_drafts-IsDraftOf r7 r8 a in
      (accepted-HasBasis _ h, elim [ inl e ↦ rw e refl | inr b ↦ basis-accepts _ h b ])
