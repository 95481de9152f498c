-- ===== src/Host.antt =====
-- internal/host.
pub mod RegisterLimiter
pub mod UpstreamPath
pub mod ClientAddress
pub mod ResourceNames
