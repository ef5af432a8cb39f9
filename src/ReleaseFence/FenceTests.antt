-- ===== src/ReleaseFence/FenceTests.antt =====
-- What the single tests of src/releaseFence/releaseFence.ts decide.
use kerf_app.Common.{
  Bool, Bool-cases, Option, String, and_split, ap, arith, false, if◌then◌else◌, inl, inr, is_empty,
  is_some, none, not, refl, some, subst, sym, true, ◌&&◌, ◌||◌, ◌↔◌, ◌≡◌, ◌≢◌, ◌⊎◌,
}
use kerf_app.Common.Text.{is_nonempty}
use kerf_app.ReleaseFence.Types.{
  LineComponentQuantityFence, LineComponentReleaseAction, LineComponentReleaseCategory,
  LineComponentReleaseIssue, LineComponentReleaseType, QuantityUseLabel, ReleaseRequirement,
  VerificationMethod, VerificationStatus, by_template, estimate, estimate_safe, expired,
  manual_required, no_requirement, not_required, pending, standard, unlabelled_quantity, verified,
}
use kerf_app.ReleaseFence.Fence.{
  enforce_manual_verification, enforce_status, enforce_verification, release_requires_verification,
}
use kerf_app.ReleaseFence.Component.{
  has_verification_log, is_by_template, is_estimate, is_manual_required, is_no_requirement,
  is_truthy, is_verification_sensitive_category, is_verified, is_verify_before_release, passed_on,
  stop,
}

abbrev pub IsTruthy : Option String → Type 0
IsTruthy o = (s : String) × (o ≡ some s) × (is_nonempty s ≡ true)

-- The log of the verification is complete, with this method.
abbrev pub HasLog : LineComponentQuantityFence → VerificationMethod → Type 0
HasLog c m =
    IsTruthy c.verification_logged_at × (c.verification_method ≡ some m) × IsTruthy c.verified_by

-- The component is verified, by a method that the log names.
abbrev pub IsVerifiedBy : LineComponentQuantityFence → VerificationMethod → Type 0
IsVerifiedBy c m = (c.verification_status ≡ verified) × HasLog c m

-- Nothing about the component asks for a verification.
abbrev pub IsFree : LineComponentQuantityFence → Type 0
IsFree c =
    (c.release_category ≡ standard)
    × ((c.quantity_use_label ≡ estimate_safe) ⊎ (c.quantity_use_label ≡ unlabelled_quantity))
    × (c.release_requirement ≡ no_requirement)

-- The ways in which a component may be released.
pub data IsReleasable (c : LineComponentQuantityFence) : Type 0 where
  free : IsFree c → IsReleasable c
  measured :
      (m : VerificationMethod)
      → c.quantity_use_label ≢ manual_required
      → IsVerifiedBy c m
      → IsReleasable c
  templated : c.quantity_use_label ≡ manual_required → IsVerifiedBy c by_template → IsReleasable c

IsTruthy-iff : (o : Option String) → (is_truthy o ≡ true) ↔ IsTruthy o
IsTruthy-iff none = (λ h. cc, λ (s, e, n). cc)
IsTruthy-iff (some s) = (λ h. (s, refl, h), λ (t, e, n). subst (λ o. is_truthy o ≡ true) (sym e) n)

some_lem : {A : Type 0} (o : Option A) → is_some o ≡ true → (a : A) × (o ≡ some a)
some_lem none h = cc
some_lem (some a) h = (a, refl)

all_three : (a b c : Bool) → a ≡ true → b ≡ true → c ≡ true → (a && b && c) ≡ true
all_three a b c ha hb hc = ground arith

log_iff :
    (c : LineComponentQuantityFence)
    → (has_verification_log c ≡ true) ↔ ((m : VerificationMethod) × HasLog c m)
log_iff c =
    let at = IsTruthy-iff c.verification_logged_at in
    let who = IsTruthy-iff c.verified_by in
    (
      λ h.
          let (first, signed) = and_split _ _ h in
          let (given, named) = and_split _ _ first in
          let (m, e) = some_lem c.verification_method named in (m, (at.0 given, e, who.0 signed)),
      λ (m, (given, e, signed)).
          let logged = at.1 given in
          let named : is_some c.verification_method ≡ true = ap is_some e in
          let known = who.1 signed in all_three _ _ _ logged named known,
    )

pub verified_iff : (s : VerificationStatus) → (is_verified s ≡ true) ↔ (s ≡ verified)
verified_iff s = ground arith

template_iff : (o : Option VerificationMethod) → (is_by_template o ≡ true) ↔ (o ≡ some by_template)
template_iff none = ground arith
template_iff (some m) = ground arith

passes :
    (b : Bool) (i : LineComponentReleaseIssue) (a : LineComponentReleaseAction)
    → (is_empty (if b then passed_on else stop i a).blocks ≡ true) ↔ (b ≡ true)
passes b i a = ground arith

pub manual_iff :
    (c : LineComponentQuantityFence)
    → (is_empty (enforce_manual_verification c).blocks ≡ true) ↔ IsVerifiedBy c by_template
unfolding enforce_manual_verification
manual_iff c =
    let test =
      passes
        (is_verified c.verification_status
          && has_verification_log c
          && is_by_template c.verification_method)
        _ _ in
    let status = verified_iff c.verification_status in
    let method = template_iff c.verification_method in
    (
      λ h.
          let (first, by) = and_split _ _ (test.0 h) in
          let (v, logged) = and_split _ _ first in
          let (m, (at, _, who)) = (log_iff c).0 logged in (status.0 v, (at, method.0 by, who)),
      λ (v, log).
          test.1 (all_three _ _ _ (status.1 v) ((log_iff c).1 (by_template, log)) (method.1 log.1)),
    )

status_iff :
    (c : LineComponentQuantityFence) (sensitive : Bool) (s : VerificationStatus)
    → (is_empty (enforce_status c sensitive s).blocks ≡ true)
      ↔ ((s ≡ verified) × (has_verification_log c ≡ true))
status_iff c sensitive expired = ground arith
status_iff c sensitive pending = ground arith
status_iff c true not_required = ground arith
status_iff c false not_required = ground arith
status_iff c sensitive verified = elim (Bool-cases (has_verification_log c)) [
  | inl logged ↦ ground arith
  | inr unlogged ↦ ground arith
]

pub verification_iff :
    (c : LineComponentQuantityFence) (sensitive : Bool)
    → (is_empty (enforce_verification c sensitive).blocks ≡ true)
      ↔ ((m : VerificationMethod) × IsVerifiedBy c m)
unfolding enforce_verification
verification_iff c sensitive =
    let test = status_iff c sensitive c.verification_status in
    (
      λ h. let (v, logged) = test.0 h in let (m, log) = (log_iff c).0 logged in (m, (v, log)),
      λ (m, (v, log)). test.1 (v, (log_iff c).1 (m, log)),
    )

pub category_iff :
    (k : LineComponentReleaseCategory)
    → (is_verification_sensitive_category k ≡ false) ↔ (k ≡ standard)
category_iff k = ground arith

requirement_iff : (r : ReleaseRequirement) → (is_no_requirement r ≡ true) ↔ (r ≡ no_requirement)
requirement_iff r = ground arith

label_iff :
    (l : QuantityUseLabel)
    → l ≢ manual_required
    → (is_verify_before_release l ≡ false) ↔ ((l ≡ estimate_safe) ⊎ (l ≡ unlabelled_quantity))
label_iff l n = ground arith

pub manual_label_iff :
    (l : QuantityUseLabel) → (is_manual_required l ≡ true) ↔ (l ≡ manual_required)
manual_label_iff l = ground arith

pub estimate_iff : (t : LineComponentReleaseType) → (is_estimate t ≡ true) ↔ (t ≡ estimate)
estimate_iff t = ground arith

free_tests :
    {A B C : Type 0} (e s v m r : Bool)
    → e ≡ false
    → m ≡ false
    → (s ≡ false) ↔ A
    → (v ≡ false) ↔ B
    → (r ≡ true) ↔ C
    → ((not e && (s || v || m || not r)) ≡ false) ↔ (A × B × C)
free_tests e s v m r he hm ia ib ic = ground arith

pub IsFree-iff :
    (c : LineComponentQuantityFence) (release_type : LineComponentReleaseType)
    → is_estimate release_type ≡ false
    → is_manual_required c.quantity_use_label ≡ false
    → (release_requires_verification c release_type ≡ false) ↔ IsFree c
unfolding release_requires_verification
IsFree-iff c release_type n l =
    free_tests _ _ _ _ _ n l (category_iff c.release_category)
      (label_iff c.quantity_use_label (λ e. cc (e, l))) (requirement_iff c.release_requirement)
