-- ===== src/Schedules.antt =====
-- The schedule pipeline of src/uk_jamaat_directory/schedules/, one module for each of its parts.
pub mod Types
pub mod Validation
pub mod Keys
pub mod Parse
pub mod Gates
pub mod Prefetch
pub mod Evaluation
pub mod Approval
pub mod Queries
pub mod Batch
pub mod Candidates
pub mod Dataset
pub mod Freshness
pub mod Publication
