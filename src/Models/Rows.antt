-- ===== src/Models/Rows.antt =====
-- The tables of src/uk_jamaat_directory/models/core.py that the schedule pipeline reads and writes.
-- A row is a record of its columns and a UUID is a number. The time stamps of the mixin are left
-- out, but for `created_at` where a query orders by it.
use uk_jamaat_directory.Prelude.{ℕ, String, Bool, Option, List}
use uk_jamaat_directory.Prelude.Int.{ℤ}
use uk_jamaat_directory.Domain.{
  Prayer, CandidateStatus, SourcePublicationPolicy, SourceType, Confidence, FreshnessStatus,
  ExtractionKind, MosqueStatus, ChangeEventType, ClaimStatus, CorrectionStatus,
}
use uk_jamaat_directory.Models.Json.{Object}
use uk_jamaat_directory.Models.Calendar.{Date, Instant, Time}

abbrev pub Uuid : Type 0
Uuid = ℕ

pub record Mosque : Type 0 where
  pub id : Uuid
  pub name : String
  pub normalized_name : String
  pub city : Option String
  pub postcode : Option String
  pub website_url : Option String
  pub status : MosqueStatus

pub record MosqueSource : Type 0 where
  pub id : Uuid
  pub mosque_id : Option Uuid
  pub source_type : SourceType
  pub external_id : String
  pub source_url : Option String
  pub display_name : Option String
  pub publication_policy : SourcePublicationPolicy
  pub confidence : Confidence
  pub license_name : Option String
  pub attribution : Option String
  pub last_seen_at : Option Instant
  pub metadata : Object

pub record ExtractionRun : Type 0 where
  pub id : Uuid
  pub artifact_id : Option Uuid
  pub source_id : Uuid
  pub kind : ExtractionKind
  pub extractor_version : String
  pub status : String

-- schedules/types.py
pub data IssueSeverity : Type 0 where
  error warning : IssueSeverity

pub record ValidationIssue : Type 0 where
  pub code : String
  pub severity : IssueSeverity
  pub field : Option String

pub record ScheduleCandidate : Type 0 where
  pub id : Uuid
  pub mosque_id : Option Uuid
  pub source_id : Uuid
  pub extraction_run_id : Option Uuid
  pub date : Date
  pub prayer : Prayer
  pub start_time : Option Time
  pub jamaat_time : Option Time
  pub session_number : ℤ
  pub session_label : Option String
  pub timezone : String
  pub confidence : Confidence
  pub status : CandidateStatus
  pub validation_errors : List ValidationIssue
  pub evidence : Object

-- A version's name: a day, a dot and decimal digits (most significant first), or any other text,
-- which begins with no day and dot.
pub data VersionName : Type 0 where
  dated : Date → List ℕ → VersionName
  named : String → VersionName

pub record DatasetVersion : Type 0 where
  pub id : Uuid
  pub version : VersionName
  pub schema_version : String
  pub status : String
  pub published_at : Option Instant
  pub manifest : Object
  pub created_at : Instant

pub record ScheduleOccurrence : Type 0 where
  pub id : Uuid
  pub mosque_id : Uuid
  pub source_id : Uuid
  pub candidate_id : Option Uuid
  pub dataset_version_id : Option Uuid
  pub date : Date
  pub prayer : Prayer
  pub start_time : Option Time
  pub jamaat_time : Time
  pub session_number : ℤ
  pub session_label : Option String
  pub timezone : String
  pub confidence : Confidence
  pub freshness_status : FreshnessStatus
  pub source_url : Option String
  pub last_verified_at : Option Instant

pub record SourceHealth : Type 0 where
  pub source_id : Uuid
  pub freshness_status : FreshnessStatus
  pub last_success_at : Option Instant
  pub last_failure_at : Option Instant
  pub consecutive_failures : ℕ
  pub next_7_days_coverage : ℕ
  pub message : Option String

pub record ChangeEvent : Type 0 where
  pub event_type : ChangeEventType
  pub mosque_id : Option Uuid
  pub occurrence_id : Option Uuid
  pub dataset_version_id : Option Uuid
  pub payload : Object

pub record ModerationAction : Type 0 where
  pub actor : String
  pub action : String
  pub entity_type : String
  pub entity_id : Uuid
  pub reason : Option String

-- The dict that every correction is stored with.
pub record CorrectionPayload : Type 0 where
  pub suggested : Object
  pub private_contact : Bool

pub record Correction : Type 0 where
  pub id : Uuid
  pub mosque_id : Option Uuid
  pub occurrence_id : Option Uuid
  pub submitter_name : Option String
  pub submitter_email : Option String
  pub message : String
  pub status : CorrectionStatus
  pub payload : CorrectionPayload

pub record MosqueClaim : Type 0 where
  pub id : Uuid
  pub mosque_id : Uuid
  pub claimant_name : String
  pub claimant_email : String
  pub claimant_role : Option String
  pub status : ClaimStatus
  pub verification_evidence : Object

-- An alias's texts are lists of code points.
pub record MosqueAlias : Type 0 where
  pub id : Uuid
  pub mosque_id : Uuid
  pub alias : List ℕ
  pub normalized_alias : List ℕ
  pub source_type : Option SourceType

pub record MosqueAttribute : Type 0 where
  pub mosque_id : Uuid
  pub facilities : Object
  pub madhab : Option String
  pub affiliation : Option String
  pub women_space : Option Bool
  pub parking : Option Bool
  pub accessibility : Object

-- `candidates` are the ids in the JSON column `alternatives`, a candidate without an id being none.
pub record IdentityMatchReview : Type 0 where
  pub id : Uuid
  pub source_id : Option Uuid
  pub proposed_mosque_id : Option Uuid
  pub candidates : List (Option Uuid)
  pub status : String
  pub reviewer : Option String
  pub reviewed_at : Option Instant

pub record SourceArtifact : Type 0 where
  pub id : Uuid
  pub source_id : Uuid
  pub fetched_url : String
  pub object_key : Option String
  pub content_hash : String
  pub fetched_at : Instant

-- `RunFrequency` of ingest/extract/repo_extractors/contract.py; the column holds its values.
pub data RunFrequency : Type 0 where
  hourly daily weekly monthly ramadan_daily manual : RunFrequency

pub record SourceExtractorAssignment : Type 0 where
  pub source_id : Uuid
  pub status : String
  pub run_frequency : RunFrequency
  pub next_run_at : Option Instant
  pub last_run_at : Option Instant
  pub last_success_at : Option Instant
  pub last_failure_at : Option Instant
  pub consecutive_failures : ℕ
  pub last_error : Option String
