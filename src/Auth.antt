-- ===== src/Auth.antt =====
-- internal/auth.
pub mod Refresh
pub mod ClientRegistry
pub mod SubjectKind
pub mod Roles
pub mod ApiToken
pub mod CodeGrant
pub mod LookupClient
pub mod Mint
