-- ===== src/Access.antt =====
-- Who may do what: the permission matrix (src/permissions) and the authority profile
-- (src/authority).
pub mod Roles
pub mod Permissions
pub mod PermissionLaws
pub mod Matrix
pub mod MatrixLaws
pub mod Authority
pub mod AuthorityLaws
pub mod Profile
pub mod ProfileLaws
mod Examples
