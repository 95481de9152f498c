-- ===== src/Web.antt =====
-- internal/web/middleware.
pub mod StreamDeadline
