-- ===== src/Services.antt =====
-- The services of src/uk_jamaat_directory/services/ that moderators and visitors act through.
pub mod Moderation
pub mod Contributions
pub mod Identity
