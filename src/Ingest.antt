-- ===== src/Ingest.antt =====
-- src/uk_jamaat_directory/ingest/: how data gets into the directory.
pub mod Texts
pub mod Normalize
pub mod DomainPolicy
pub mod Crawl
pub mod Extract
pub mod Discovery
pub mod Authoring
