-- ===== src/ReleaseFence/Demands.antt =====
-- What a refusal of src/releaseFence/releaseFence.ts demands.
use kerf_app.Common.{
  Bool, List, Option, String, [], ap, arith, false, if◌then◌else◌, is_empty, none, not, refl, some,
  sym, true, ◌&&◌, ◌++◌, ◌||◌, ◌∷◌, ◌≡◌, ◌≢◌,
}
use kerf_app.ReleaseFence.Types.{
  IssueCode, LineComponentQuantityFence, LineComponentReleaseAction, LineComponentReleaseIssue,
  LineComponentReleaseType, QuantityUseLabel, ReleaseRequirement, VerificationStatus, expired,
  manual_required, manual_template, manual_verification_required, not_required, pending,
  sensitive_component_requires_verification, standard, verification_expired,
  verification_log_incomplete, verification_pending, verification_required, verified,
}
use kerf_app.ReleaseFence.Fence.{
  can_release_line_component, decision, demand_log, demand_manual, enforce, enforce_log,
  enforce_manual_verification, enforce_status, enforce_verification, expiration_at,
  release_requires_verification, unverified,
}
use kerf_app.ReleaseFence.Component.{
  Enforcement, action_for, effective_release_requirement, has_verification_log, is_by_template,
  is_estimate_safe, is_manual_required, is_truthy, is_verification_sensitive_category, is_verified,
  is_verify_before_release, issue, passed_on, required_action_for, stop,
}
use kerf_app.ReleaseFence.FenceTests.{category_iff, manual_label_iff}

-- The issue and the action are about the component, and about what it requires.
abbrev pub Concerns :
    LineComponentQuantityFence → LineComponentReleaseIssue → LineComponentReleaseAction → Type 0
Concerns c i a =
    (i.component_id ≡ c.component_id)
    × (a.component_id ≡ c.component_id)
    × (i.release_requirement ≡ some (effective_release_requirement c))
    × (a.release_requirement ≡ some (effective_release_requirement c))
    × (i.verification_status ≡ some c.verification_status)

-- The code names the reason.
pub data IsReason (c : LineComponentQuantityFence) : IssueCode → Type 0 where
  by_hand : c.quantity_use_label ≡ manual_required → IsReason c manual_verification_required
  too_old : c.verification_status ≡ expired → IsReason c verification_expired
  not_yet : c.verification_status ≡ pending → IsReason c verification_pending
  no_log :
      c.verification_status ≡ verified
      → has_verification_log c ≡ false
      → IsReason c verification_log_incomplete
  never :
      c.verification_status ≡ not_required
      → c.release_category ≡ standard
      → IsReason c verification_required
  sensitive :
      c.verification_status ≡ not_required
      → c.release_category ≢ standard
      → IsReason c sensitive_component_requires_verification

-- Either nothing is demanded, or one issue and one action are.
pub data IsPaired (c : LineComponentQuantityFence) : Enforcement → Type 0 where
  nothing : IsPaired c passed_on
  one :
      (i : LineComponentReleaseIssue) (a : LineComponentReleaseAction)
      → Concerns c i a
      → IsReason c i.code
      → IsPaired c (stop i a)

-- What holds of both branches, each under its condition, holds of the conditional.
branches :
    (c : LineComponentQuantityFence) (b : Bool) (x y : Enforcement)
    → (b ≡ true → IsPaired c x)
    → (b ≡ false → IsPaired c y)
    → IsPaired c (if b then x else y)
branches c true x y hx hy = hx refl
branches c false x y hx hy = hy refl

manual_requirement :
    (c : LineComponentQuantityFence)
    → c.quantity_use_label ≡ manual_required
    → manual_template ≡ effective_release_requirement c
manual_requirement c l =
    sym (ap (λ k. if is_manual_required k then manual_template else c.release_requirement) l)

manual-IsPaired :
    (c : LineComponentQuantityFence)
    → c.quantity_use_label ≡ manual_required
    → IsPaired c (enforce_manual_verification c)
unfolding enforce_manual_verification
manual-IsPaired c l =
    let e = ap some (manual_requirement c l) in
    branches c
      (is_verified c.verification_status
        && has_verification_log c
        && is_by_template c.verification_method)
      passed_on (demand_manual c) (λ _. nothing) (λ _. one _ _ (refl, refl, e, e, refl) (by_hand l))

action_for-fields :
    (c : LineComponentQuantityFence) (r : ReleaseRequirement)
    → ((action_for c r).component_id ≡ c.component_id)
      × ((action_for c r).release_requirement ≡ some r)
action_for-fields c r = ground arith

required-IsPaired :
    (c : LineComponentQuantityFence) (code : IssueCode) (message : String)
    → IsReason c code
    → IsPaired c
        (stop (issue c code message (effective_release_requirement c)) (required_action_for c))
required-IsPaired c code message r =
    let f = action_for-fields c (effective_release_requirement c) in
    one _ _ (refl, f.0, refl, f.1, refl) r

unverified-IsPaired :
    (c : LineComponentQuantityFence) (b : Bool)
    → b ≡ is_verification_sensitive_category c.release_category
    → c.verification_status ≡ not_required
    → IsPaired c (unverified c b)
unverified-IsPaired c true h s =
    required-IsPaired c _ _ (sensitive s (λ e. cc (ap is_verification_sensitive_category e, h)))
unverified-IsPaired c false h s =
    required-IsPaired c _ _ (never s ((category_iff c.release_category).0 (sym h)))

log-IsPaired :
    (c : LineComponentQuantityFence) → c.verification_status ≡ verified → IsPaired c (enforce_log c)
log-IsPaired c s =
    branches c (not (has_verification_log c)) (demand_log c) passed_on
      (λ h. one _ _ (refl, refl, refl, refl, refl) (no_log s (ground arith))) (λ _. nothing)

status-IsPaired :
    (c : LineComponentQuantityFence) (s : VerificationStatus)
    → c.verification_status ≡ s
    → IsPaired c (enforce_status c (is_verification_sensitive_category c.release_category) s)
status-IsPaired c expired e = required-IsPaired c _ _ (too_old e)
status-IsPaired c pending e = required-IsPaired c _ _ (not_yet e)
status-IsPaired c not_required e = unverified-IsPaired c _ refl e
status-IsPaired c verified e = log-IsPaired c e

enforce-IsPaired :
    (c : LineComponentQuantityFence) (t : LineComponentReleaseType) → IsPaired c (enforce c t)
unfolding enforce enforce_verification
enforce-IsPaired c t =
    let status = enforce_verification c (is_verification_sensitive_category c.release_category) in
    let needed = release_requires_verification c t in
    branches c (is_manual_required c.quantity_use_label) (enforce_manual_verification c)
      (if needed then status else passed_on)
      (λ l. manual-IsPaired c ((manual_label_iff c.quantity_use_label).0 l))
      (λ _.
        branches c needed status passed_on (λ _. status-IsPaired c c.verification_status refl)
          (λ _. nothing))

decision-IsPaired :
    (c : LineComponentQuantityFence) (e : Bool) (t : LineComponentReleaseType) (x : Enforcement)
    (v w : List LineComponentReleaseIssue)
    → IsPaired c x
    → let d = if e then decision c t passed_on v else decision c t x w in
      IsPaired c (record { blocks = d.blocked; actions = d.required_actions })
decision-IsPaired c true t x v w h = nothing
decision-IsPaired c false t x v w h = h

-- A decision either blocks nothing and requires no action, or it has exactly one block and one
-- required action. Both name the component and what it effectively requires, and the code of the
-- block is the one of the reason: a manual quantity, an expired, pending or missing verification,
-- or a verification whose log is incomplete.
pub can_release-IsPaired :
    (c : LineComponentQuantityFence) (t : LineComponentReleaseType)
    → let d = can_release_line_component c t in
      IsPaired c (record { blocks = d.blocked; actions = d.required_actions })
unfolding can_release_line_component
can_release-IsPaired c t = decision-IsPaired c _ t (enforce c t) _ _ (enforce-IsPaired c t)

quiet-expiration :
    (c : LineComponentQuantityFence) (o : Option String)
    → is_empty (expiration_at c o) ≡ not (is_verified c.verification_status && is_truthy o)
quiet-expiration c none = ground arith
quiet-expiration c (some at) = ground arith

quiet-estimate :
    (l : QuantityUseLabel) (b : Bool) (v w : LineComponentReleaseIssue)
    → is_empty (
        (if not (is_estimate_safe l) then v ∷ [] else [])
        ++ (if b || is_verify_before_release l then w ∷ [] else []))
      ≡ (is_estimate_safe l && not b)
quiet-estimate l true v w = ground arith
quiet-estimate l false v w = ground arith
