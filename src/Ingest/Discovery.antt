-- ===== src/Ingest/Discovery.antt =====
-- src/uk_jamaat_directory/ingest/discovery/: which mosque a discovered record belongs to.
pub mod Matching
pub mod Scoring
