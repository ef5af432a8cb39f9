-- ===== src/Hosting/RouteCheck.antt =====
-- src/hosting/routeCheck.ts: the registry of approved endpoints and the check of a route.
use kerf_app.Common.{
  Bool, List, Option, String, [], false, find, if◌then◌else◌, none, not, number_eq, or_else, some,
  text_eq, true, ◌&&◌, ◌==◌, ◌∷◌,
}
use kerf_app.Common.Text.{any_visible, codes}

pub data HostingRouteTier : Type 0 where
  cheap_fast frontier : HostingRouteTier

pub data HostingRouteStatus : Type 0 where
  approved retired : HostingRouteStatus

pub data HostingRouteFailureReason : Type 0 where
  malformed_route_request endpoint_not_approved : HostingRouteFailureReason
  endpoint_not_active source_model_mismatch : HostingRouteFailureReason

pub record ApprovedHostingEndpoint : Type 0 where
  pub endpoint : String
  pub provider : String
  pub model : String
  pub tier : HostingRouteTier
  pub approved_by_decision : String
  pub approved_at : String
  pub status : HostingRouteStatus

abbrev pub approved_endpoint :
    String → String → String → HostingRouteTier → String → String → ApprovedHostingEndpoint
approved_endpoint endpoint provider model tier decision at = record {
  endpoint = endpoint;
  provider = provider;
  model = model;
  tier = tier;
  approved_by_decision = decision;
  approved_at = at;
  status = approved;
}

abbrev pub approved_hosting_endpoints : List ApprovedHostingEndpoint
approved_hosting_endpoints =
    approved_endpoint "groq://llama-70b" "groq" "llama-3.3-70b-versatile" cheap_fast "D-023"
      "2026-04-22T00:00:00.000Z"
    ∷ approved_endpoint "groq://llama-4-scout" "groq" "meta-llama/llama-4-scout-17b-16e-instruct"
        cheap_fast "D-023" "2026-05-06T00:00:00.000Z"
    ∷ approved_endpoint "groq://whisper-large-v3-turbo" "groq" "whisper-large-v3-turbo" cheap_fast
        "D-023" "2026-05-08T00:00:00.000Z"
    ∷ approved_endpoint "anthropic://claude-sonnet-5" "anthropic" "claude-sonnet-5" frontier "D-069"
        "2026-06-30T00:00:00.000Z"
    ∷ approved_endpoint "anthropic://claude-haiku-4-5" "anthropic" "claude-haiku-4-5" frontier
        "D-064" "2026-06-07T00:00:00.000Z"
    ∷ approved_endpoint "openai://gpt-4o-transcribe-realtime" "openai" "gpt-4o-transcribe" frontier
        "D-049" "2026-05-29T00:00:00.000Z"
    ∷ []

pub record HostingRouteCheckRequest : Type 0 where
  pub invocation_id : String
  pub tenant_id : String
  pub endpoint : String
  pub source_model : String
  pub purpose : String
  pub requested_at : String
  pub workflow : Option String

pub record HostingRouteCheckResult : Type 0 where
  pub invocation_id : String
  pub tenant_id : String
  pub endpoint : String
  pub source_model : String
  pub allowed : Bool
  pub checked_at : String
  pub reason : Option HostingRouteFailureReason
  pub provider : Option String
  pub model : Option String
  pub tier : Option HostingRouteTier
  pub approved_by_decision : Option String

pub record HostingRouteCheckOptions : Type 0 where
  pub checked_at : Option String
  pub registry : Option (List ApprovedHostingEndpoint)

-- `nonEmpty`: something is left by `trim`.
abbrev pub is_filled : String → Bool
is_filled s = any_visible (codes s)

unfoldable pub malformed_request_reason :
    HostingRouteCheckRequest → Option HostingRouteFailureReason
malformed_request_reason r =
    if not (is_filled r.invocation_id)
    then some malformed_route_request
    else if not (is_filled r.tenant_id)
    then some malformed_route_request
    else if not (is_filled r.endpoint)
    then some malformed_route_request
    else if not (is_filled r.source_model)
    then some malformed_route_request
    else if not (is_filled r.purpose)
    then some malformed_route_request
    else if not (is_filled r.requested_at)
    then some malformed_route_request
    else none

-- `baseResult`; the action and the version of the registry are constants of every result.
abbrev pub base_result :
    HostingRouteCheckRequest → String → Option HostingRouteFailureReason → HostingRouteCheckResult
base_result r checked_at reason = record {
  invocation_id = r.invocation_id;
  tenant_id = r.tenant_id;
  endpoint = r.endpoint;
  source_model = r.source_model;
  allowed = false;
  checked_at = checked_at;
  reason = reason;
  provider = none;
  model = none;
  tier = none;
  approved_by_decision = none;
}

abbrev pub allowed_result :
    HostingRouteCheckRequest → String → ApprovedHostingEndpoint → HostingRouteCheckResult
allowed_result r checked_at e = record {
  invocation_id = r.invocation_id;
  tenant_id = r.tenant_id;
  endpoint = r.endpoint;
  source_model = r.source_model;
  allowed = true;
  checked_at = checked_at;
  reason = none;
  provider = some e.provider;
  model = some e.model;
  tier = some e.tier;
  approved_by_decision = some e.approved_by_decision;
}

abbrev pub is_approved : HostingRouteStatus → Bool
is_approved approved = true
is_approved retired = false

-- The tests on the entry that the registry has.
abbrev pub check_endpoint :
    HostingRouteCheckRequest → String → Option ApprovedHostingEndpoint → HostingRouteCheckResult
check_endpoint r at none = base_result r at (some endpoint_not_approved)
check_endpoint r at (some e) =
    if not (is_approved e.status)
    then base_result r at (some endpoint_not_active)
    else if not (e.model == r.source_model)
    then base_result r at (some source_model_mismatch)
    else allowed_result r at e

abbrev pub find_endpoint : String → List ApprovedHostingEndpoint → Option ApprovedHostingEndpoint
find_endpoint endpoint registry =
    find (λ (e : ApprovedHostingEndpoint). e.endpoint == endpoint) registry

-- The tests after the one of the request.
abbrev pub check_formed :
    HostingRouteCheckRequest
    → String
    → List ApprovedHostingEndpoint
    → Option HostingRouteFailureReason
    → HostingRouteCheckResult
check_formed r at registry (some reason) = base_result r at (some reason)
check_formed r at registry none = check_endpoint r at (find_endpoint r.endpoint registry)

unfoldable pub check_hosting_route :
    HostingRouteCheckRequest → HostingRouteCheckOptions → HostingRouteCheckResult
check_hosting_route r options =
    check_formed r (or_else options.checked_at r.requested_at)
      (or_else options.registry approved_hosting_endpoints) (malformed_request_reason r)

unfoldable pub approved_hosting_endpoint :
    String → List ApprovedHostingEndpoint → Option ApprovedHostingEndpoint
approved_hosting_endpoint endpoint registry =
    find (λ (e : ApprovedHostingEndpoint). e.endpoint == endpoint && is_approved e.status) registry
