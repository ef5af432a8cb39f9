-- ===== src/Hosting/Examples.antt =====
-- The route check of src/hosting on a concrete request.
use kerf_app.Common.{none, refl, true, ◌↔◌, ◌≡◌}
use kerf_app.Hosting.RouteCheck.{
  ApprovedHostingEndpoint, HostingRouteCheckOptions, HostingRouteCheckRequest,
  approved_hosting_endpoints, check_hosting_route, malformed_request_reason,
}
use kerf_app.Hosting.RouteLaws.{IsFormed, Serves, check_hosting_route-allowed_iff}

abbrev call : HostingRouteCheckRequest
call = record {
  invocation_id = "inv_1";
  tenant_id = "tenant_ggr";
  endpoint = "anthropic://claude-sonnet-5";
  source_model = "claude-sonnet-5";
  purpose = "proposal";
  requested_at = "2026-07-01T00:00:00.000Z";
  workflow = none;
}

abbrev by_default : HostingRouteCheckOptions
by_default = record { checked_at = none; registry = none }

call-allowed : (check_hosting_route call by_default).allowed ≡ true
unfolding check_hosting_route malformed_request_reason
call-allowed = refl

check_hosting_route-allowed_iff_example :
    ((check_hosting_route call by_default).allowed ≡ true)
    ↔ (IsFormed call × ((e : ApprovedHostingEndpoint) × Serves approved_hosting_endpoints call e))
check_hosting_route-allowed_iff_example = check_hosting_route-allowed_iff call by_default
