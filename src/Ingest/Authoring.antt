-- ===== src/Ingest/Authoring.antt =====
-- src/uk_jamaat_directory/ingest/authoring/: an agent writes an extractor for a mosque's website.
pub mod FailureTaxonomy
pub mod Retry
pub mod Process
pub mod Summary
