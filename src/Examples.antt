-- ===== src/Examples.antt =====
-- Tests and concrete instances.
pub mod Cache
pub mod Web
pub mod Rewrite
pub mod Dcr
pub mod Refresh
pub mod Host
pub mod Clients
pub mod Roles
pub mod Tokens
pub mod Upstream
pub mod Listing
pub mod Codes
pub mod Mint
