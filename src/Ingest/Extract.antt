-- ===== src/Ingest/Extract.antt =====
-- src/uk_jamaat_directory/ingest/extract/: extractor scripts, their helpers and their checks.
pub mod Times
pub mod Scripts
pub mod Validator
