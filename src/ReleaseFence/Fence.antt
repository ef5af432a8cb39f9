-- ===== src/ReleaseFence/Fence.antt =====
-- src/releaseFence/releaseFence.ts: the decision on a component. The lists that the source fills
-- by `push` are returned.
use kerf_app.Common.{
  Bool, List, Option, String, [], false, if◌then◌else◌, is_empty, none, not, some, true, ◌&&◌, ◌++◌,
  ◌||◌, ◌∷◌,
}
use kerf_app.Common.Text.{is_nonempty, ◌+++◌}
use kerf_app.ReleaseFence.Types.{
  LineComponentQuantityFence, LineComponentReleaseDecision, LineComponentReleaseIssue,
  LineComponentReleaseType, VerificationStatus, act_log_manual_verification, act_verify_quantity,
  estimate_only_quantity, expired, manual_template, manual_verification_required, not_required,
  pending, release_will_require_verification, sensitive_component_requires_verification,
  verification_expired, verification_expires, verification_log_incomplete, verification_pending,
  verification_required, verified,
}
use kerf_app.ReleaseFence.Component.{
  Enforcement, action, effective_release_requirement, has_verification_log, is_by_template,
  is_estimate, is_estimate_safe, is_manual_required, is_no_requirement,
  is_verification_sensitive_category, is_verified, is_verify_before_release, issue, passed_on,
  required_action_for, stop,
}

-- The pushes of `enforceManualVerification`.
abbrev pub demand_manual : LineComponentQuantityFence → Enforcement
demand_manual c =
    stop
      (issue c manual_verification_required
        "Manual-required quantity cannot be released until manual verification is logged."
        manual_template)
      (action c act_log_manual_verification
        "Log manual verification with method, verifier, and timestamp." manual_template)

unfoldable pub enforce_manual_verification : LineComponentQuantityFence → Enforcement
enforce_manual_verification c =
    if is_verified c.verification_status
      && has_verification_log c
      && is_by_template c.verification_method
    then passed_on
    else demand_manual c

-- The branch on a status that is neither expired, pending nor verified.
abbrev pub unverified : LineComponentQuantityFence → Bool → Enforcement
unverified c true =
    stop
      (issue c sensitive_component_requires_verification
        "Cabinetry, stone, glass, and tight millwork require verification before release."
        (effective_release_requirement c))
      (required_action_for c)
unverified c false =
    stop
      (issue c verification_required "Line component requires verification before release."
        (effective_release_requirement c))
      (required_action_for c)

-- The pushes for a verification without a complete log.
abbrev pub demand_log : LineComponentQuantityFence → Enforcement
demand_log c =
    stop
      (issue c verification_log_incomplete
        "Verified line component is missing verification method, verifier, or timestamp."
        (effective_release_requirement c))
      (action c act_verify_quantity "Complete the verification log before release."
        (effective_release_requirement c))

abbrev pub enforce_log : LineComponentQuantityFence → Enforcement
enforce_log c = if not (has_verification_log c) then demand_log c else passed_on

abbrev pub enforce_status : LineComponentQuantityFence → Bool → VerificationStatus → Enforcement
enforce_status c sensitive expired =
    stop
      (issue c verification_expired "Verification is expired; re-verify before release."
        (effective_release_requirement c))
      (required_action_for c)
enforce_status c sensitive pending =
    stop
      (issue c verification_pending
        "Verification is pending; release is blocked until verification is complete."
        (effective_release_requirement c))
      (required_action_for c)
enforce_status c sensitive not_required = unverified c sensitive
enforce_status c sensitive verified = enforce_log c

unfoldable pub enforce_verification : LineComponentQuantityFence → Bool → Enforcement
enforce_verification c sensitive = enforce_status c sensitive c.verification_status

abbrev pub expiration_at :
    LineComponentQuantityFence → Option String → List LineComponentReleaseIssue
expiration_at c none = []
expiration_at c (some at) =
    if is_verified c.verification_status && is_nonempty at
    then issue c verification_expires ("Verification expires at " +++ at +++ ".")
        (effective_release_requirement c)
      ∷ []
    else []

-- `addExpirationWarning`
unfoldable pub expiration_warning : LineComponentQuantityFence → List LineComponentReleaseIssue
expiration_warning c = expiration_at c c.verification_expires_at

abbrev pub decision :
    LineComponentQuantityFence
    → LineComponentReleaseType
    → Enforcement
    → List LineComponentReleaseIssue
    → LineComponentReleaseDecision
decision c release_type e warnings = record {
  allowed = is_empty e.blocks;
  release_type = release_type;
  component_id = c.component_id;
  blocked = e.blocks;
  warnings = warnings;
  required_actions = e.actions;
}

unfoldable pub release_requires_verification :
    LineComponentQuantityFence → LineComponentReleaseType → Bool
release_requires_verification c release_type =
    not (is_estimate release_type)
    && (is_verification_sensitive_category c.release_category
        || is_verify_before_release c.quantity_use_label
        || is_manual_required c.quantity_use_label
        || not (is_no_requirement c.release_requirement))

-- The warnings that only an estimate has.
unfoldable pub estimate_warnings : LineComponentQuantityFence → List LineComponentReleaseIssue
estimate_warnings c =
    (if not (is_estimate_safe c.quantity_use_label)
      then issue c estimate_only_quantity
          "Quantity may support estimating, but must not be released without verification."
          c.release_requirement
        ∷ []
      else [])
    ++ (if is_verification_sensitive_category c.release_category
          || is_verify_before_release c.quantity_use_label
        then issue c release_will_require_verification
            "This line component will require verification before ordering, fabrication, or field release."
            (effective_release_requirement c)
          ∷ []
        else [])

-- The last two tests of `canReleaseLineComponent`.
unfoldable pub enforce : LineComponentQuantityFence → LineComponentReleaseType → Enforcement
unfolding enforce_manual_verification enforce_verification release_requires_verification
enforce c release_type =
    if is_manual_required c.quantity_use_label
    then enforce_manual_verification c
    else if release_requires_verification c release_type
    then enforce_verification c (is_verification_sensitive_category c.release_category)
    else passed_on

unfoldable pub can_release_line_component :
    LineComponentQuantityFence → LineComponentReleaseType → LineComponentReleaseDecision
unfolding enforce expiration_warning estimate_warnings
can_release_line_component c release_type =
    if is_estimate release_type
    then decision c release_type passed_on (estimate_warnings c ++ expiration_warning c)
    else decision c release_type (enforce c release_type) (expiration_warning c)
