-- ===== src/Journal.antt =====
-- The record journal (internal/journal): scopes, what readers may see, the difference of a snapshot
-- and the stored rows, and the replay of events.
pub mod Names
pub mod Scope
pub mod Access
pub mod Fields
pub mod Diff
pub mod Fold
pub mod Apply
