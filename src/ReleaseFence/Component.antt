-- ===== src/ReleaseFence/Component.antt =====
-- src/releaseFence/releaseFence.ts: the tests on a component, and the issues and actions that the
-- fence names.
use kerf_app.Common.{
  Bool, List, Option, String, [], false, if◌then◌else◌, is_some, none, some, true, ◌&&◌, ◌∷◌,
}
use kerf_app.Common.Text.{is_nonempty}
use kerf_app.ReleaseFence.Types.{
  IssueCode, LineComponentQuantityFence, LineComponentReleaseAction, LineComponentReleaseActionCode,
  LineComponentReleaseCategory, LineComponentReleaseIssue, LineComponentReleaseType,
  QuantityUseLabel, ReleaseRequirement, VerificationMethod, VerificationStatus,
  act_complete_manual_template, act_laser_verify, act_multi_method_verify, act_supervisor_signoff,
  act_tape_verify, act_verify_quantity, by_template, estimate, estimate_safe, laser_verify,
  manual_required, manual_template, multi_method, no_requirement, standard, supervisor_signoff,
  tape_verify, verified, verify_before_release,
}

abbrev pub is_verification_sensitive_category : LineComponentReleaseCategory → Bool
is_verification_sensitive_category standard = false
is_verification_sensitive_category _ = true

abbrev pub is_estimate : LineComponentReleaseType → Bool
is_estimate estimate = true
is_estimate _ = false

abbrev pub is_estimate_safe : QuantityUseLabel → Bool
is_estimate_safe estimate_safe = true
is_estimate_safe _ = false

abbrev pub is_verify_before_release : QuantityUseLabel → Bool
is_verify_before_release verify_before_release = true
is_verify_before_release _ = false

abbrev pub is_manual_required : QuantityUseLabel → Bool
is_manual_required manual_required = true
is_manual_required _ = false

abbrev pub is_no_requirement : ReleaseRequirement → Bool
is_no_requirement no_requirement = true
is_no_requirement _ = false

abbrev pub is_verified : VerificationStatus → Bool
is_verified verified = true
is_verified _ = false

abbrev pub is_by_template : Option VerificationMethod → Bool
is_by_template (some by_template) = true
is_by_template _ = false

-- A text that is given and not empty.
abbrev pub is_truthy : Option String → Bool
is_truthy none = false
is_truthy (some s) = is_nonempty s

abbrev pub has_verification_log : LineComponentQuantityFence → Bool
has_verification_log c =
    is_truthy c.verification_logged_at && is_some c.verification_method && is_truthy c.verified_by

abbrev pub effective_release_requirement : LineComponentQuantityFence → ReleaseRequirement
effective_release_requirement c =
    if is_manual_required c.quantity_use_label then manual_template else c.release_requirement

abbrev pub issue :
    LineComponentQuantityFence → IssueCode → String → ReleaseRequirement → LineComponentReleaseIssue
issue c code message requirement = record {
  code = code;
  message = message;
  component_id = c.component_id;
  release_requirement = some requirement;
  verification_status = some c.verification_status;
}

abbrev pub action :
    LineComponentQuantityFence
    → LineComponentReleaseActionCode
    → String
    → ReleaseRequirement
    → LineComponentReleaseAction
action c code message requirement = record {
  code = code;
  message = message;
  component_id = c.component_id;
  release_requirement = some requirement;
}

abbrev pub action_for : LineComponentQuantityFence → ReleaseRequirement → LineComponentReleaseAction
action_for c tape_verify =
    action c act_tape_verify "Complete tape verification before release." tape_verify
action_for c laser_verify =
    action c act_laser_verify "Complete laser verification before release." laser_verify
action_for c manual_template =
    action c act_complete_manual_template "Complete manual verification template before release."
      manual_template
action_for c supervisor_signoff =
    action c act_supervisor_signoff "Capture supervisor signoff before release." supervisor_signoff
action_for c multi_method =
    action c act_multi_method_verify "Complete multi-method verification before release."
      multi_method
action_for c no_requirement =
    action c act_verify_quantity "Verify quantity before release." no_requirement

abbrev pub required_action_for : LineComponentQuantityFence → LineComponentReleaseAction
required_action_for c = action_for c (effective_release_requirement c)

-- What the two functions that enforce push.
pub record Enforcement : Type 0 where
  pub blocks : List LineComponentReleaseIssue
  pub actions : List LineComponentReleaseAction

abbrev pub passed_on : Enforcement
passed_on = record { blocks = []; actions = [] }

abbrev pub stop : LineComponentReleaseIssue → LineComponentReleaseAction → Enforcement
stop i a = record { blocks = i ∷ []; actions = a ∷ [] }
