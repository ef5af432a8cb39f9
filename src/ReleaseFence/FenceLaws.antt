-- ===== src/ReleaseFence/FenceLaws.antt =====
-- What src/releaseFence/releaseFence.ts releases, and what it says about it.
use kerf_app.Common.{
  Bool, ap, false, if◌then◌else◌, inl, inr, is_empty, refl, true, ↔-trans, ◌↔◌, ◌≡◌, ◌⊎◌,
}
use kerf_app.ReleaseFence.Types.{
  LineComponentQuantityFence, LineComponentReleaseDecision, LineComponentReleaseType,
  VerificationMethod, by_template, estimate, manual_required,
}
use kerf_app.ReleaseFence.Fence.{
  can_release_line_component, enforce, enforce_manual_verification, enforce_verification,
  release_requires_verification,
}
use kerf_app.ReleaseFence.Component.{
  Enforcement, is_estimate, is_manual_required, is_verification_sensitive_category, passed_on,
}
use kerf_app.ReleaseFence.FenceTests.{
  IsFree-iff, IsReleasable, IsVerifiedBy, estimate_iff, free, manual_iff, manual_label_iff,
  measured, templated, verification_iff,
}

choose_iff :
    {R : Type 0} (m t : Bool) (x y : Enforcement)
    → (m ≡ true → (is_empty x.blocks ≡ true) ↔ R)
    → (m ≡ false → t ≡ true → (is_empty y.blocks ≡ true) ↔ R)
    → (m ≡ false → t ≡ false → R)
    → (is_empty (if m then x else if t then y else passed_on).blocks ≡ true) ↔ R
choose_iff true t x y hx hy hr = hx refl
choose_iff false true x y hx hy hr = hy refl refl
choose_iff false false x y hx hy hr = (λ h. hr refl refl, λ r. refl)

manual-Releasable :
    (c : LineComponentQuantityFence)
    → c.quantity_use_label ≡ manual_required
    → IsVerifiedBy c by_template ↔ IsReleasable c
manual-Releasable c l = (λ v. templated l v, λ r. back r)
  where
    back : IsReleasable c → IsVerifiedBy c by_template
    back (free (_, label, _)) = elim label [ inl e ↦ cc (l, e) | inr e ↦ cc (l, e) ]
    back (measured m n v) = absurd (n l)
    back (templated _ v) = v

other-Releasable :
    (c : LineComponentQuantityFence) (release_type : LineComponentReleaseType)
    → is_estimate release_type ≡ false
    → is_manual_required c.quantity_use_label ≡ false
    → release_requires_verification c release_type ≡ true
    → ((m : VerificationMethod) × IsVerifiedBy c m) ↔ IsReleasable c
other-Releasable c release_type n l h =
    (λ (m, v). measured m (λ e. cc (ap is_manual_required e, l)) v, λ r. back r)
  where
    back : IsReleasable c → (m : VerificationMethod) × IsVerifiedBy c m
    back (free f) = cc ((IsFree-iff c release_type n l).1 f, h)
    back (measured m _ v) = (m, v)
    back (templated e _) = cc (ap is_manual_required e, l)

enforce_iff :
    (c : LineComponentQuantityFence) (release_type : LineComponentReleaseType)
    → is_estimate release_type ≡ false
    → (is_empty (enforce c release_type).blocks ≡ true) ↔ IsReleasable c
unfolding enforce
enforce_iff c release_type n =
    choose_iff (is_manual_required c.quantity_use_label)
      (release_requires_verification c release_type) (enforce_manual_verification c)
      (enforce_verification c (is_verification_sensitive_category c.release_category))
      (λ l.
        ↔-trans (manual_iff c) (manual-Releasable c ((manual_label_iff c.quantity_use_label).0 l)))
      (λ l h. ↔-trans (verification_iff c _) (other-Releasable c release_type n l h))
      (λ l h. free ((IsFree-iff c release_type n l).0 h))

allowed_lem :
    {E R : Type 0} (e : Bool) (x y : LineComponentReleaseDecision)
    → x.allowed ≡ true
    → (e ≡ true) ↔ E
    → (e ≡ false → (y.allowed ≡ true) ↔ R)
    → ((if e then x else y).allowed ≡ true) ↔ (E ⊎ R)
allowed_lem true x y hx he hy = (λ h. inl (he.0 refl), λ r. hx)
allowed_lem false x y hx he hy =
    (λ h. inr ((hy refl).0 h), λ r. elim r [ inl e ↦ cc (he.1 e) | inr r ↦ (hy refl).1 r ])

-- Any component may be estimated. For another release it has to be free of every demand for a
-- verification, or verified with a complete log; where a quantity is marked as manual, only a log
-- that names a manual template will do.
pub can_release-allowed_iff :
    (c : LineComponentQuantityFence) (release_type : LineComponentReleaseType)
    → ((can_release_line_component c release_type).allowed ≡ true)
      ↔ ((release_type ≡ estimate) ⊎ IsReleasable c)
unfolding can_release_line_component
can_release-allowed_iff c release_type =
    allowed_lem (is_estimate release_type) _ _ refl (estimate_iff release_type)
      (λ n. enforce_iff c release_type n)
