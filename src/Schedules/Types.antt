-- ===== src/Schedules/Types.antt =====
-- schedules/types.py and the settings of config.py that the schedule pipeline reads. A validation
-- result is its list of issues; the message texts are left out.
use uk_jamaat_directory.Prelude.{ℕ, String, Bool, true, false, not, Option, some, List, select, any}
use uk_jamaat_directory.Prelude.Int.{ℤ}
use uk_jamaat_directory.Domain.{Prayer}
use uk_jamaat_directory.Models.Calendar.{Date}
use uk_jamaat_directory.Models.Rows.{IssueSeverity, ValidationIssue, VersionName}

-- config.py
pub record Settings : Type 0 where
  pub schedule_date_past_days : ℕ
  pub schedule_date_future_days : ℕ
  pub freshness_stale_days : ℕ
  pub publish_allow_ai : Bool
  pub repo_extractor_auto_approve_candidates : Bool

pub record ScheduleCandidateInput : Type 0 where
  pub date : Date
  pub prayer : Prayer
  pub session_number : ℤ
  pub session_label : Option String
  pub timezone : String

abbrev pub ValidationResult : Type 0
ValidationResult = List ValidationIssue

abbrev pub is_error : ValidationIssue → Bool
is_error issue = elim issue.severity [ IssueSeverity.error ↦ true | IssueSeverity.warning ↦ false ]

abbrev pub errors : ValidationResult → List ValidationIssue
errors issues = select is_error issues

-- `not self.errors`
abbrev pub is_valid : ValidationResult → Bool
is_valid issues = not (any is_error issues)

abbrev pub error_issue : String → String → ValidationIssue
error_issue code field = record { code = code; severity = IssueSeverity.error; field = some field }

abbrev pub warning_issue : String → String → ValidationIssue
warning_issue code field = record {
  code = code;
  severity = IssueSeverity.warning;
  field = some field;
}

pub record ValidateBatchResult : Type 0 where
  pub examined : ℕ
  pub approved : ℕ
  pub rejected : ℕ
  pub pending : ℕ
  pub skipped : ℕ

pub record PublishResult : Type 0 where
  pub dataset_version : Option VersionName
  pub published : ℕ
  pub skipped_policy : ℕ
  pub skipped_validation : ℕ
  pub carried_forward : ℕ
  pub removed_occurrences : ℕ
  pub change_events : ℕ
  pub errors : List String
