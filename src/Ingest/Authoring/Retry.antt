-- ===== src/Ingest/Authoring/Retry.antt =====
-- ingest/authoring/orchestrator.py: which sources a run takes up, and what it writes to their tasks.
--
-- The columns that only report (texts of errors, durations, paths) are left out of the task, but
-- for the failure category and the attempts, which decide about the next run. `attempts` may be
-- None on a task that is not flushed yet.
pub mod Runs
pub mod Listing
use uk_jamaat_directory.Prelude.{
  ℕ, zero, suc, ◌==◌, nat_eq, string_eq, option_eq, String, Bool, true, false, not, ◌&&◌, ◌||◌,
  Option, none, some, List, [], ◌∷◌, ltb, leb, contains, select, if◌then◌else◌,
}
use uk_jamaat_directory.Domain.{
  SourceType, source_type_eq, AuthoringTaskStatus, authoring_task_status_eq,
  AuthoringFailureCategory, authoring_failure_category_eq, permanent_failure_categories,
}
use uk_jamaat_directory.Models.Json.{Json, bool, get}
use uk_jamaat_directory.Models.Rows.{Uuid, MosqueSource}
use uk_jamaat_directory.Schedules.Parse.{Text}

pub record AuthoringTask : Type 0 where
  pub source_id : Uuid
  pub status : AuthoringTaskStatus
  pub failure_category : Option AuthoringFailureCategory
  pub attempts : Option ℕ

-- The arguments of a run that say what to retry.
pub record RetryPolicy : Type 0 where
  pub retry_failed : Bool
  pub retry_categories : List AuthoringFailureCategory
  pub max_attempts : ℕ

-- `task.attempts or 0`
abbrev pub or_zero : Option ℕ → ℕ
or_zero none = 0
or_zero (some n) = n

-- `category in categories`, where None is in no set of texts.
abbrev pub is_among : Option AuthoringFailureCategory → List AuthoringFailureCategory → Bool
is_among none categories = false
is_among (some category) categories = contains category categories

unfoldable pub task_eligible_for_retry : RetryPolicy → AuthoringTask → Bool
task_eligible_for_retry policy task =
    if not (task.status == AuthoringTaskStatus.failed)
    then false
    else if policy.retry_failed
    then true
    else if is_among task.failure_category policy.retry_categories
    then true
    else if is_among task.failure_category permanent_failure_categories
    then false
    else ltb (or_zero task.attempts) policy.max_attempts

-- One row of the query: a source, the status of its assignment, and its task.
pub record SourceRow : Type 0 where
  pub source : MosqueSource
  pub assignment_status : Option String
  pub task : Option AuthoringTask

-- The WHERE clauses.
unfoldable pub is_queried : Option Uuid → SourceRow → Bool
is_queried source_id row =
    row.source.source_type == SourceType.mosque_website
    && (elim row.source.source_url [ none ↦ false | some url ↦ true ]
        && elim source_id [ none ↦ true | some id ↦ row.source.id == id ])

-- `metadata.get("crawl_enabled") is False`
abbrev pub is_switched_off : Option Json → Bool
is_switched_off none = false
is_switched_off (some (bool b)) = not b
is_switched_off (some _) = false

-- A task that keeps its source out of the run.
unfoldable pub is_settled : RetryPolicy → Option AuthoringTask → Bool
is_settled policy none = false
is_settled policy (some task) =
    if task.status == AuthoringTaskStatus.deployed
      || (task.status == AuthoringTaskStatus.awaiting_review
          || task.status == AuthoringTaskStatus.skipped_review)
    then true
    else task.status == AuthoringTaskStatus.failed && not (task_eligible_for_retry policy task)

unfoldable pub is_eligible : RetryPolicy → SourceRow → Bool
is_eligible policy row =
    if is_switched_off (get "crawl_enabled" row.source.metadata)
    then false
    else if row.assignment_status == some "active"
    then false
    else not (is_settled policy row.task)

-- `limit is not None and source_id is None and len(eligible) >= limit`
abbrev pub is_full : Option ℕ → Option Uuid → ℕ → Bool
is_full none source_id count = false
is_full (some limit) none count = leb limit count
is_full (some limit) (some id) count = false

-- The loop, with the number of sources listed so far.
unfoldable pub collect :
    RetryPolicy → Option ℕ → Option Uuid → ℕ → List SourceRow → List MosqueSource
collect policy limit source_id count [] = []
collect policy limit source_id count (row ∷ rows) =
    let skipped = collect policy limit source_id count rows in
    let listed = collect policy limit source_id (suc count) rows in
    if is_eligible policy row
    then row.source ∷ (if is_full limit source_id (suc count) then [] else listed)
    else skipped

unfoldable pub list_candidate_sources :
    Option Uuid → Option ℕ → RetryPolicy → List SourceRow → List MosqueSource
list_candidate_sources source_id limit policy rows =
    collect policy limit source_id 0 (select (is_queried source_id) rows)

-- How `_process_source` ends, as far as it decides about the task and about repairs.
pub record SourceProcessResult : Type 0 where
  pub status : AuthoringTaskStatus
  pub failure_category : Option AuthoringFailureCategory
  pub script_path : Option Text
  pub validation_issues : List Text
  pub repair_attempts : ℕ

-- `_existing_task` or a new task, with one attempt more.
abbrev pub attempted :
    Uuid
    → AuthoringTaskStatus
    → Option AuthoringFailureCategory
    → Option AuthoringTask
    → AuthoringTask
attempted source_id status category none = record {
  source_id = source_id;
  status = status;
  failure_category = category;
  attempts = some 1;
}
attempted source_id status category (some task) = record task {
  status = status;
  failure_category = category;
  attempts = some (suc (or_zero task.attempts));
}

-- What `deploy_extractor_assignment` does: it deploys, it returns issues, or it raises.
pub data Deployment : Type 0 where
  deploys refuses raises : Deployment

abbrev pub deployed_task : Deployment → AuthoringTask → AuthoringTask
deployed_task Deployment.deploys task = record task {
  status = AuthoringTaskStatus.deployed;
  failure_category = none;
}
deployed_task Deployment.refuses task = record task {
  status = AuthoringTaskStatus.failed;
  failure_category = some AuthoringFailureCategory.validation_failed;
}
deployed_task Deployment.raises task = record task {
  status = AuthoringTaskStatus.failed;
  failure_category = some AuthoringFailureCategory.agent_error;
}

-- The writes of `_process_one` after a result.
unfoldable pub record_result :
    Bool → Uuid → SourceProcessResult → Deployment → Option AuthoringTask → AuthoringTask
record_result dry_run source_id result deployment task =
    let written = attempted source_id result.status result.failure_category task in
    if not dry_run && result.status == AuthoringTaskStatus.awaiting_review
    then deployed_task deployment written
    else written

-- The writes of `_process_one` after an exception.
unfoldable pub record_crash : Uuid → Option AuthoringTask → AuthoringTask
record_crash source_id task =
    attempted source_id AuthoringTaskStatus.failed (some AuthoringFailureCategory.agent_error) task

-- `_persist_preflight_outcome`
unfoldable pub persist_preflight_outcome :
    Uuid → AuthoringTaskStatus → AuthoringFailureCategory → Option AuthoringTask → AuthoringTask
persist_preflight_outcome source_id status category task =
    attempted source_id status (some category) task
