-- ===== src/Tests.antt =====
-- Sample tables, and the theorems applied to them.
mod Samples
mod Validation
mod Authoring
mod Parse
mod Publication
mod Services
mod Contributions
mod Ingest
mod Discovery
mod Crawl
mod Identity
