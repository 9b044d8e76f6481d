-- ===== src/Ingest/Crawl.antt =====
-- ingest/crawl/pipeline.py: one crawl of a source, by a repository extractor that is assigned to it
-- or by a fetch.
--
-- The answer of the network and the extractor scripts are parameters.
pub mod State
pub mod Fetch
pub mod Booked
pub mod Delay
pub mod Goes
pub mod Outcome
use uk_jamaat_directory.Prelude.{
  ℕ, zero, suc, ◌+◌, ◌*◌, ◌==◌, nat_eq, String, string_eq, Bool, true, false, not, ◌&&◌, ◌||◌,
  Option, none, some, List, [], ◌∷◌, ◌++◌, first, any, leb, update_where, if◌then◌else◌,
}
use uk_jamaat_directory.Domain.{
  SourceType, source_type_eq, FreshnessStatus, source_failed, ExtractionKind,
}
use uk_jamaat_directory.Models.Calendar.{Instant, World}
use uk_jamaat_directory.Models.Json.{Json, iso_instant, bool, get, put}
use uk_jamaat_directory.Models.Rows.{
  Uuid, Mosque, MosqueSource, SourceHealth, ExtractionRun, SourceArtifact, RunFrequency,
  SourceExtractorAssignment,
}
use uk_jamaat_directory.Models.Session.{
  Db, Session, ◌>>=◌, ◌>>◌, pure, gets, modify, uuid4, get_source, get_mosque, get_health,
  get_assignment,
}
use uk_jamaat_directory.Schedules.Queries.{column_is}
use uk_jamaat_directory.Schedules.Freshness.{health_or_new, save_health}
use uk_jamaat_directory.Ingest.Crawl.State.{
  CrawlSettings, FetchResult, RepoExtractionOutcome, Crawler, ProcessSourceResult, no_result,
  given_text, is_false, crawl_enabled_for_source, is_due_at, is_due, hours, fetch_delay,
  save_source, with_next_fetch, seen_at, marked_failed, touched, touch_source_health,
  schedule_next_fetch,
}
use uk_jamaat_directory.Ingest.Crawl.Fetch.{
  book_failure, book_success, failed_run, run_rows, run_on_body, run_with_key, run_for_mosque,
  mosque_of, run_extraction, extract_artifact, is_extracted, settle, after_unchanged, new_artifact,
  or_octets, headers_fit, is_stored, create_if, create_artifact, found_or_created,
  record_fetched_artifact, after_content, after_fetch, latest_artifact, after_fetched, fetched_from,
  crawl,
}

-- `_schedule_next_run` of ingest/extract/repo_extractors/runtime.py, in hours.
unfoldable pub run_interval : RunFrequency → ℕ
run_interval RunFrequency.hourly = 1
run_interval RunFrequency.daily = 24
run_interval RunFrequency.weekly = 168
run_interval RunFrequency.monthly = 720
run_interval RunFrequency.ramadan_daily = 24
run_interval RunFrequency.manual = 8760

unfoldable pub backoff_hours : ℕ → ℕ
backoff_hours zero = 2
backoff_hours (suc zero) = 4
backoff_hours (suc (suc zero)) = 8
backoff_hours (suc (suc (suc n))) = 24

unfoldable pub schedule_next_run :
    Instant → RepoExtractionOutcome → Bool → SourceExtractorAssignment → SourceExtractorAssignment
schedule_next_run now outcome true a = record a {
  last_run_at = some now;
  next_run_at = some (now + hours (run_interval a.run_frequency));
  consecutive_failures = 0;
  last_success_at = some now;
}
schedule_next_run now outcome false a = record a {
  last_run_at = some now;
  next_run_at = some (now + hours (backoff_hours a.consecutive_failures));
  consecutive_failures = suc a.consecutive_failures;
  last_failure_at = some now;
  last_error = outcome.error;
}

abbrev pub save_assignment :
    Uuid → (SourceExtractorAssignment → SourceExtractorAssignment) → Db → Db
save_assignment id change db = record db {
  assignments = update_where (λ a. a.source_id == id) change db.assignments;
}

abbrev pub or_message : Option String → String → String
or_message none message = message
or_message (some error) message = error

module _ (c : Crawler) (source : MosqueSource) where
  -- `_apply_repo_extraction_outcome`
  unfoldable pub apply_repo_extraction_outcome : RepoExtractionOutcome → Session ProcessSourceResult
  apply_repo_extraction_outcome outcome = do
    modify (save_assignment source.id (schedule_next_run c.now outcome outcome.is_succeeded))
    health ←
        touch_source_health c.now source.id outcome.is_succeeded
          (or_message (given_text outcome.error) "repo extractor run completed")
    modify (
        save_assignment source.id (λ a.
          if not outcome.is_succeeded && leb 3 health.consecutive_failures
          then record a { status = "failed_validation" }
          else a))
    pure (record no_result {
      extracted = outcome.is_succeeded;
      candidates_created = outcome.rows;
      error = given_text outcome.error;
    })

  abbrev pub is_active : Option SourceExtractorAssignment → Bool
  is_active none = false
  is_active (some a) = a.status == "active"

  abbrev pub process_unassigned : Bool → Session ProcessSourceResult
  process_unassigned force =
      if not force && not (is_due c.now source)
      then pure (record no_result { skipped_reason = some "not due for fetch" })
      else crawl c source

  abbrev pub process_enabled : Bool → Bool → Session ProcessSourceResult
  process_enabled force true = do
    outcome ← c.run_extractor source
    apply_repo_extraction_outcome outcome
  process_enabled force false = process_unassigned force

  abbrev pub process_checked : Bool → Bool → Bool → Session ProcessSourceResult
  process_checked force active false =
      pure (record no_result { skipped_reason = some "crawl disabled" })
  process_checked force active true = process_enabled force active

  unfoldable pub process_found : Bool → Session ProcessSourceResult
  process_found force = do
    active ← gets (λ db. is_active (get_assignment source.id db))
    process_checked force active (crawl_enabled_for_source c.settings source)

abbrev pub process_row : Crawler → Bool → Option MosqueSource → Session ProcessSourceResult
process_row c force none = pure (record no_result { error = some "source not found" })
process_row c force (some source) = process_found c source force

-- `process_source`
unfoldable pub process_source : Crawler → Uuid → Bool → Session ProcessSourceResult
process_source c source_id force = do
  source ← gets (get_source source_id)
  process_row c force source
