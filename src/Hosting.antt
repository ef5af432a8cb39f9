-- ===== src/Hosting.antt =====
-- Which model services may be called (src/hosting).
pub mod RouteCheck
pub mod RouteLaws
mod Examples
