-- ===== src/Hosting/RouteLaws.antt =====
-- Which routes src/hosting/routeCheck.ts allows.
use text.Mathlib.TextEquality.{eq_iff}
use kerf_app.Common.{
  Bool, First, List, Option, String, arith, false, find_iff, if◌then◌else◌, none, not, or_else,
  refl, some, subst, true, ◌↔◌, ◌≡◌,
}
use kerf_app.Hosting.RouteCheck.{
  ApprovedHostingEndpoint, HostingRouteCheckOptions, HostingRouteCheckRequest,
  HostingRouteCheckResult, HostingRouteFailureReason, HostingRouteStatus, approved,
  approved_hosting_endpoints, check_endpoint, check_formed, check_hosting_route, find_endpoint,
  is_approved, is_filled, malformed_request_reason, malformed_route_request,
}

-- Every text that the check reads has something in it.
abbrev pub IsFormed : HostingRouteCheckRequest → Type 0
IsFormed r =
    (is_filled r.invocation_id ≡ true)
    × (is_filled r.tenant_id ≡ true)
    × (is_filled r.endpoint ≡ true)
    × (is_filled r.source_model ≡ true)
    × (is_filled r.purpose ≡ true)
    × (is_filled r.requested_at ≡ true)

IsFormed-iff : (r : HostingRouteCheckRequest) → (malformed_request_reason r ≡ none) ↔ IsFormed r
unfolding malformed_request_reason
IsFormed-iff r =
    six_tests (is_filled r.invocation_id) (is_filled r.tenant_id) (is_filled r.endpoint)
      (is_filled r.source_model) (is_filled r.purpose) (is_filled r.requested_at)
  where
    six_tests :
        (a b c d e f : Bool)
        → ((if not a
              then some malformed_route_request
              else if not b
              then some malformed_route_request
              else if not c
              then some malformed_route_request
              else if not d
              then some malformed_route_request
              else if not e
              then some malformed_route_request
              else if not f
              then some malformed_route_request
              else none)
            ≡ none)
          ↔ ((a ≡ true) × (b ≡ true) × (c ≡ true) × (d ≡ true) × (e ≡ true) × (f ≡ true))
    six_tests a b c d e f = ground arith

-- The entry is the first with the endpoint of the request, is approved and is for the model of the request.
abbrev pub Serves :
    List ApprovedHostingEndpoint → HostingRouteCheckRequest → ApprovedHostingEndpoint → Type 0
Serves registry r e =
    First (λ (x : ApprovedHostingEndpoint). x.endpoint ≡ r.endpoint) e registry
    × (e.status ≡ approved)
    × (e.model ≡ r.source_model)

find_endpoint_iff :
    (endpoint : String) (e : ApprovedHostingEndpoint) (registry : List ApprovedHostingEndpoint)
    → (find_endpoint endpoint registry ≡ some e)
      ↔ First (λ (x : ApprovedHostingEndpoint). x.endpoint ≡ endpoint) e registry
find_endpoint_iff endpoint e registry = find_iff _ (λ x. eq_iff x.endpoint endpoint) e registry

approved_iff : (s : HostingRouteStatus) → (is_approved s ≡ true) ↔ (s ≡ approved)
approved_iff s = ground arith

entry_iff :
    (r : HostingRouteCheckRequest) (at : String) (e : ApprovedHostingEndpoint)
    → ((check_endpoint r at (some e)).allowed ≡ true)
      ↔ ((e.status ≡ approved) × (e.model ≡ r.source_model))
entry_iff r at e =
    two_tests _ _ _ _ _ refl refl refl (approved_iff e.status) (eq_iff e.model r.source_model)
  where
    two_tests :
        {A B : Type 0} (a b : Bool) (x y z : HostingRouteCheckResult)
        → x.allowed ≡ false
        → y.allowed ≡ false
        → z.allowed ≡ true
        → (a ≡ true) ↔ A
        → (b ≡ true) ↔ B
        → ((if not a then x else if not b then y else z).allowed ≡ true) ↔ (A × B)
    two_tests true true x y z hx hy hz ia ib = (λ h. (ia.0 refl, ib.0 refl), λ t. hz)
    two_tests true false x y z hx hy hz ia ib = (λ h. cc (hy, h), λ (s, t). cc (ib.1 t))
    two_tests false b x y z hx hy hz ia ib = (λ h. cc (hx, h), λ (s, t). cc (ia.1 s))

endpoint_iff :
    (r : HostingRouteCheckRequest) (at : String) (registry : List ApprovedHostingEndpoint)
    (o : Option ApprovedHostingEndpoint)
    → find_endpoint r.endpoint registry ≡ o
    → ((check_endpoint r at o).allowed ≡ true)
      ↔ ((e : ApprovedHostingEndpoint) × Serves registry r e)
endpoint_iff r at registry none f =
    (λ h. cc, λ (e, (g, _, _)). cc (f, (find_endpoint_iff r.endpoint e registry).1 g))
endpoint_iff r at registry (some e) f =
    let tests = entry_iff r at e in
    (
      λ h. let (s, m) = tests.0 h in (e, ((find_endpoint_iff r.endpoint e registry).0 f, s, m)),
      λ (d, (g0, s, m)).
          let g = (find_endpoint_iff r.endpoint d registry).1 g0 in
          let same : d ≡ e = cc (f, g) in
          tests.1 (
            subst (λ (x : ApprovedHostingEndpoint). x.status ≡ approved) same s,
            subst (λ (x : ApprovedHostingEndpoint). x.model ≡ r.source_model) same m,
          ),
    )

formed_iff :
    (r : HostingRouteCheckRequest) (at : String) (registry : List ApprovedHostingEndpoint)
    (o : Option HostingRouteFailureReason)
    → ((check_formed r at registry o).allowed ≡ true)
      ↔ ((o ≡ none) × ((e : ApprovedHostingEndpoint) × Serves registry r e))
formed_iff r at registry (some reason) = (λ h. cc, λ (e, _). cc)
formed_iff r at registry none =
    let inner = endpoint_iff r at registry (find_endpoint r.endpoint registry) refl in
    (λ h. (refl, inner.0 h), λ (_, t). inner.1 t)

-- A route is allowed exactly when every text of the request has something in it and the registry,
-- which is the built-in one unless another is given, has the endpoint first with an entry that is
-- approved and is for the model of the request.
pub check_hosting_route-allowed_iff :
    (r : HostingRouteCheckRequest) (options : HostingRouteCheckOptions)
    → ((check_hosting_route r options).allowed ≡ true) ↔ (
        IsFormed r
        × ((e : ApprovedHostingEndpoint) × Serves
              (or_else options.registry approved_hosting_endpoints)
              r
              e))
unfolding check_hosting_route
check_hosting_route-allowed_iff r options =
    let registry = or_else options.registry approved_hosting_endpoints in
    let at = or_else options.checked_at r.requested_at in
    let outer = formed_iff r at registry (malformed_request_reason r) in
    let formed = IsFormed-iff r in
    (λ h. let (f, e) = outer.0 h in (formed.0 f, e), λ (f, e). outer.1 (formed.1 f, e))
