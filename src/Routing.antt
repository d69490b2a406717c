-- ===== src/Routing.antt =====
-- What internal/routing hands to a reviewer of quarantined items.
pub mod Sanitize
