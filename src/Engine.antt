-- ===== src/Engine.antt =====
-- The scan engine (internal/engine): scoring, matchers, the pass over a content, and the derived
-- views that undo escapes and reordering.
pub mod Scoring
pub mod Matcher
pub mod Stream
pub mod Unescape
