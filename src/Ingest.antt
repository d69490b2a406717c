-- ===== src/Ingest.antt =====
-- What internal/ingest keeps of the callers that it turned away and of the uploads in flight, and how
-- it unpacks archives.
pub mod RateLimit
pub mod Uploads
pub mod Metadata
pub mod Untar
