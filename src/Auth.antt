-- ===== src/Auth.antt =====
-- Identity and access control: src/ansina/auth.
pub mod Policy
pub mod Directory
pub mod Management
pub mod RoleSync
pub mod Oidc
pub mod Grants
pub mod Throttle
pub mod Sudo
pub mod Totp
