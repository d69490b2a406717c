-- ===== src/Staging.antt =====
-- Staged items (internal/staging): the checks on an item's audience.
pub mod Audience
