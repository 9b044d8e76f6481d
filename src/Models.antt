-- ===== src/Models.antt =====
-- The tables of src/uk_jamaat_directory/models/ and the session that reads and writes them.
pub mod Json
pub mod Calendar
pub mod Columns
pub mod Rows
pub mod Session
pub mod Triples
