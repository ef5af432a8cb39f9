-- ===== src/ReleaseFence/Examples.antt =====
-- The release fence of src/releaseFence on concrete components.
use kerf_app.Common.{none, refl, some, true, ◌↔◌, ◌≡◌, ◌⊎◌}
use kerf_app.ReleaseFence.Types.{
  LineComponentQuantityFence, by_laser, estimate, fabrication, laser_verify, scan_derived, stone,
  verified, verify_before_release,
}
use kerf_app.ReleaseFence.Fence.{
  can_release_line_component, enforce, enforce_manual_verification, enforce_verification,
  estimate_warnings, expiration_warning, release_requires_verification,
}
use kerf_app.ReleaseFence.FenceTests.{IsReleasable}
use kerf_app.ReleaseFence.FenceLaws.{can_release-allowed_iff}
use kerf_app.ReleaseFence.Demands.{IsPaired, can_release-IsPaired}

abbrev countertop : LineComponentQuantityFence
countertop = record {
  component_id = "c1";
  release_category = stone;
  quantity_source = scan_derived;
  quantity_use_label = verify_before_release;
  release_requirement = laser_verify;
  verification_status = verified;
  verification_logged_at = some "2026-05-01";
  verification_method = some by_laser;
  verified_by = some "u1";
  verification_expires_at = none;
}

countertop-released : (can_release_line_component countertop fabrication).allowed ≡ true
unfolding can_release_line_component enforce enforce_verification enforce_manual_verification
    release_requires_verification estimate_warnings expiration_warning
countertop-released = refl

can_release-allowed_iff_example :
    ((can_release_line_component countertop fabrication).allowed ≡ true)
    ↔ ((fabrication ≡ estimate) ⊎ IsReleasable countertop)
can_release-allowed_iff_example = can_release-allowed_iff countertop fabrication

can_release-IsPaired_example :
    let d = can_release_line_component countertop fabrication in
    IsPaired countertop (record { blocks = d.blocked; actions = d.required_actions })
can_release-IsPaired_example = can_release-IsPaired countertop fabrication
