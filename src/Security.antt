-- ===== src/Security.antt =====
-- backend/security: what guards the management interface.
pub mod RateLimit
