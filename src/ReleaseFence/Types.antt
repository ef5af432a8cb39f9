-- ===== src/ReleaseFence/Types.antt =====
-- src/releaseFence/types.ts: the vocabularies and records of the release fence.
use kerf_app.Common.{Bool, List, Option, String}

pub data QuantitySource : Type 0 where
  scan_derived manual_entry plan_takeoff vendor_measure : QuantitySource
  historical_estimate not_applicable : QuantitySource

-- `unlabelled_quantity` is `n/a`.
pub data QuantityUseLabel : Type 0 where
  estimate_safe verify_before_release manual_required unlabelled_quantity : QuantityUseLabel

-- `no_requirement` is `none`, and no method of verification.
pub data ReleaseRequirement : Type 0 where
  no_requirement tape_verify laser_verify manual_template : ReleaseRequirement
  supervisor_signoff multi_method : ReleaseRequirement

pub data VerificationStatus : Type 0 where
  not_required pending verified expired : VerificationStatus

pub data VerificationMethod : Type 0 where
  by_tape by_laser by_template by_signoff by_methods : VerificationMethod

pub data LineComponentReleaseCategory : Type 0 where
  standard cabinetry stone glass tight_millwork : LineComponentReleaseCategory

pub data LineComponentReleaseType : Type 0 where
  estimate work_order purchase_order fabrication field_install : LineComponentReleaseType

-- The scope tag, the description and the metric are not read.
pub record LineComponentQuantityFence : Type 0 where
  pub component_id : String
  pub release_category : LineComponentReleaseCategory
  pub quantity_source : QuantitySource
  pub quantity_use_label : QuantityUseLabel
  pub release_requirement : ReleaseRequirement
  pub verification_status : VerificationStatus
  pub verification_logged_at : Option String
  pub verification_method : Option VerificationMethod
  pub verified_by : Option String
  pub verification_expires_at : Option String

-- The codes of the blocks, then those of the warnings.
pub data IssueCode : Type 0 where
  verification_required manual_verification_required verification_pending : IssueCode
  verification_expired verification_log_incomplete : IssueCode
  sensitive_component_requires_verification : IssueCode
  estimate_only_quantity release_will_require_verification verification_expires : IssueCode

pub data LineComponentReleaseActionCode : Type 0 where
  act_verify_quantity act_tape_verify act_laser_verify : LineComponentReleaseActionCode
  act_complete_manual_template act_supervisor_signoff : LineComponentReleaseActionCode
  act_multi_method_verify act_log_manual_verification : LineComponentReleaseActionCode

pub record LineComponentReleaseIssue : Type 0 where
  pub code : IssueCode
  pub message : String
  pub component_id : String
  pub release_requirement : Option ReleaseRequirement
  pub verification_status : Option VerificationStatus

pub record LineComponentReleaseAction : Type 0 where
  pub code : LineComponentReleaseActionCode
  pub message : String
  pub component_id : String
  pub release_requirement : Option ReleaseRequirement

pub record LineComponentReleaseDecision : Type 0 where
  pub allowed : Bool
  pub release_type : LineComponentReleaseType
  pub component_id : String
  pub blocked : List LineComponentReleaseIssue
  pub warnings : List LineComponentReleaseIssue
  pub required_actions : List LineComponentReleaseAction
